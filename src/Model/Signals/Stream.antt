-- ===== src/Model/Signals/Stream.antt =====
-- The stream that a codec reads and writes a binary signal through: dse/modelc/model/ncodec.c. A
-- size is a size_t as its bit pattern.

pub mod File
use dse_modelc.Base.{
  ℕ, ◌+◌, ◌-◌, ◌%◌, ◌^◌, ◌≡◌, Bool, true, false, Option, none, some, List, [], ◌∷◌, length, take,
  drop, ltb, leb, if◌then◌else◌,
}
use dse_modelc.Model.Signals.{BinarySignal, Buffers, binary_append, bytes}

pub data SeekOp : Type 0 where
  seek_set seek_cur seek_end seek_reset seek_other : SeekOp

abbrev pub minus_enostr : ℕ
minus_enostr = 2 ^ 64 - 60

abbrev pub minus_einval : ℕ
minus_einval = 2 ^ 64 - 22

-- What a function does with a stream that is closed, and with one that is open.
unfoldable pub with_stream : {A : Type 0} → Option ℕ → A → (ℕ → A) → A
with_stream none closed opened = closed
with_stream (some pos) closed opened = opened pos

-- The read from an open stream: the size that is returned and the bytes.
unfoldable pub read_at : BinarySignal → Bool → ℕ → Option (List ℕ) → (ℕ × List ℕ) × BinarySignal
read_at s update pos none = ((0, []), s)
read_at s update pos (some b) = if leb s.length pos then ((0, []), s) else (
  (s.length - pos, take (s.length - pos) (drop pos b)),
  if update then record s { stream = some s.length } else s,
)

-- `update` is NCODEC_POS_UPDATE.
unfoldable pub stream_read : BinarySignal → Bool → (ℕ × List ℕ) × BinarySignal
stream_read s update =
    with_stream s.stream ((minus_enostr, []), s) (λ pos. read_at s update pos s.binary)

-- A position that is not behind the end.
abbrev pub at_most : ℕ → ℕ → ℕ
at_most n pos = if ltb n pos then n else pos

-- signal_append() cuts the length of the data to a uint32_t.
unfoldable pub write_at : Buffers → BinarySignal → List ℕ → ℕ → (ℕ × List ℕ) × BinarySignal
write_at buffers s bs pos =
    let from = at_most s.length pos in
    let s' = binary_append buffers (record s { length = from }) (take (length bs % 2 ^ 32) bs) in
    ((length bs, []), record s' { stream = some ((from + length bs) % 2 ^ 32) })

unfoldable pub stream_write : Buffers → BinarySignal → List ℕ → (ℕ × List ℕ) × BinarySignal
stream_write buffers s bs =
    with_stream s.stream ((minus_enostr, []), s) (λ pos. write_at buffers s bs pos)

-- The seek of an open stream, `to` as a size_t.
unfoldable pub seek_at : BinarySignal → ℕ → SeekOp → ℕ → ℕ × BinarySignal
seek_at s to SeekOp.seek_set pos =
    (at_most s.length to, record s { stream = some (at_most s.length to) })
seek_at s to SeekOp.seek_cur pos =
    let sum = at_most s.length ((pos + to) % 2 ^ 64) in (sum, record s { stream = some sum })
seek_at s to SeekOp.seek_end pos = (s.length, record s { stream = some s.length })
seek_at s to SeekOp.seek_reset pos =
    (0, record s { stream = some 0; length = 0; reset_called = true })
seek_at s to SeekOp.seek_other pos = (minus_einval, s)

unfoldable pub stream_seek : BinarySignal → ℕ → SeekOp → ℕ × BinarySignal
stream_seek s to op = with_stream s.stream (minus_enostr, s) (λ pos. seek_at s to op pos)

unfoldable pub stream_tell : BinarySignal → ℕ
stream_tell s = with_stream s.stream minus_enostr (λ pos. pos)

unfoldable pub stream_eof : BinarySignal → ℕ
stream_eof s = with_stream s.stream 1 (λ pos. if ltb pos s.length then 0 else 1)

unfoldable pub stream_close : BinarySignal → ℕ × BinarySignal
stream_close s = with_stream s.stream (minus_enostr, s) (λ pos. (0, record s { stream = none }))

-- model_sv_stream_create() of a binary vector, when ncodec_open() succeeds.
unfoldable pub stream_create : BinarySignal → BinarySignal
stream_create s = record s { stream = some 0 }

pub data Op : Type 0 where
  read : Bool → Op
  write : List ℕ → Op
  seek : ℕ → SeekOp → Op
  tell eof : Op

-- One call: what the codec gets, and the signal.
unfoldable pub stream_call : Buffers → BinarySignal → Op → (ℕ × List ℕ) × BinarySignal
stream_call buffers s (read update) = stream_read s update
stream_call buffers s (write bs) = stream_write buffers s bs
stream_call buffers s (seek to op) = let r = stream_seek s to op in ((r.0, []), r.1)
stream_call buffers s tell = ((stream_tell s, []), s)
stream_call buffers s eof = ((stream_eof s, []), s)

unfoldable pub stream_calls : Buffers → BinarySignal → List Op → List (ℕ × List ℕ) × BinarySignal
stream_calls buffers s [] = ([], s)
stream_calls buffers s (op ∷ ops) =
    let (out, s') = stream_call buffers s op in
    let (outs, last) = stream_calls buffers s' ops in (out ∷ outs, last)
