-- ===== src/Tests/Signals.antt =====
-- A buffer that grows by what is appended, and a signal with a stream.
use dse_modelc.Base.{
  ℕ, ◌+◌, ◌≡◌, refl, true, Option, some, List, [], ◌∷◌, ◌++◌, arith, length, take, length-append,
  length-take, take_all,
}
use dse_modelc.Model.Signals.{BinarySignal, Buffers, bytes, binary_append}
use dse_modelc.Model.Signals.Stream.{
  SeekOp, Op, with_stream, read_at, write_at, seek_at, stream_read, stream_write, stream_seek,
  stream_tell, stream_eof, stream_call, stream_calls,
}
use dse_modelc.Model.Signals.Stream.File.{file_calls, IsFile, stream_calls-IsFile}

abbrev grown : Option (List ℕ) → ℕ → ℕ → List ℕ → Option (List ℕ) × ℕ × ℕ
grown b n size bs = (some (take n (bytes b) ++ bs), n + length bs, n + length bs)

abbrev growing : Buffers
growing = record {
  append = grown;
  append_lem = λ b n size bs fits small.
      (let sum : length (take n (bytes b) ++ bs) ≡ n + length bs =
          omega (arith, length-append (take n (bytes b)) bs, length-take n (bytes b) fits) in
        (refl, omega arith, take_all (n + length bs) (take n (bytes b) ++ bs) (omega arith)));
}

-- Two bytes, with the stream behind the first.
abbrev signal : BinarySignal
signal = record {
  binary = some (1 ∷ 2 ∷ []);
  length = 2;
  buffer_size = 2;
  reset_called = true;
  stream = some 1;
}

-- Write behind the first byte, go back to the start, and read.
abbrev calls : List Op
calls = Op.write (7 ∷ 8 ∷ []) ∷ Op.eof ∷ Op.seek 0 SeekOp.seek_set ∷ Op.read true ∷ Op.tell ∷ []

run_calls :
    (stream_calls growing signal calls).0
    ≡ (2, []) ∷ (1, []) ∷ (0, []) ∷ (3, 1 ∷ 7 ∷ 8 ∷ []) ∷ (3, []) ∷ []
unfolding stream_calls stream_call stream_read stream_write stream_seek stream_tell stream_eof
    with_stream read_at write_at seek_at binary_append
run_calls = refl

codec_example :
    ((stream_calls growing signal calls).0
      ≡ (file_calls (record { text = 1 ∷ 2 ∷ []; at = 1 }) calls).0)
    × IsFile
        (stream_calls growing signal calls).1
        (file_calls (record { text = 1 ∷ 2 ∷ []; at = 1 }) calls).1
codec_example =
    stream_calls-IsFile growing signal (record { text = 1 ∷ 2 ∷ []; at = 1 }) calls
      (refl, refl, omega arith) (omega arith)
