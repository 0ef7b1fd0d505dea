-- ===== src/Model/Signals/Stream/File.antt =====
-- What a codec sees of its stream: a file with a position. dse/modelc/model/ncodec.c.
use dse_modelc.Base.{
  ℕ, ◌+◌, ◌-◌, ◌%◌, ◌^◌, ◌≤◌, ◌<◌, ◌≡◌, refl, sym, ap, ◌∙◌, inl, inr, Bool, true, false, Option,
  none, some, List, [], ◌∷◌, ◌++◌, arith, length, take, drop, length-append, length-take,
  length-drop, take-shorter, take-take, take-drop, take_all, drop_all, Bool-cases, ltb, leb,
  if◌then◌else◌,
}
use dse_modelc.Model.Signals.{BinarySignal, Buffers, bytes, content, binary_append}
use dse_modelc.Model.Signals.Stream.{
  SeekOp, minus_einval, minus_enostr, with_stream, read_at, write_at, seek_at, stream_read,
  stream_write, at_most, stream_seek, stream_tell, stream_eof, Op, stream_call, stream_calls,
}

pub record File : Type 0 where
  pub text : List ℕ
  pub at : ℕ

-- A read gives what follows the position, and moves the position behind it if `update` is set.
unfoldable pub file_read : File → Bool → (ℕ × List ℕ) × File
file_read f update = (
  (length (drop f.at f.text), drop f.at f.text),
  if update then record f { at = if leb (length f.text) f.at then f.at else length f.text } else f,
)

-- A write cuts the file at the position, and the position is then at its end.
unfoldable pub file_write : File → List ℕ → (ℕ × List ℕ) × File
file_write f bs =
    let from = at_most (length f.text) f.at in
    ((length bs, []), record { text = take from f.text ++ bs; at = from + length bs })

-- No seek goes behind the end; the sum of a relative seek is a size_t.
unfoldable pub file_seek : File → ℕ → SeekOp → (ℕ × List ℕ) × File
file_seek f to SeekOp.seek_set =
    let pos = at_most (length f.text) to in ((pos, []), record f { at = pos })
file_seek f to SeekOp.seek_cur =
    let pos = at_most (length f.text) ((f.at + to) % 2 ^ 64) in ((pos, []), record f { at = pos })
file_seek f to SeekOp.seek_end = ((length f.text, []), record f { at = length f.text })
file_seek f to SeekOp.seek_reset = ((0, []), record { text = []; at = 0 })
file_seek f to SeekOp.seek_other = ((minus_einval, []), f)

abbrev pub file_call : File → Op → (ℕ × List ℕ) × File
file_call f (Op.read update) = file_read f update
file_call f (Op.write bs) = file_write f bs
file_call f (Op.seek to op) = file_seek f to op
file_call f Op.tell = ((f.at, []), f)
file_call f Op.eof = ((if ltb f.at (length f.text) then 0 else 1, []), f)

abbrev pub file_calls : File → List Op → List (ℕ × List ℕ) × File
file_calls f [] = ([], f)
file_calls f (op ∷ ops) =
    let (out, f') = file_call f op in let (outs, last) = file_calls f' ops in (out ∷ outs, last)

-- The bytes that calls write.
abbrev pub written : List Op → ℕ
written [] = 0
written (Op.write bs ∷ ops) = length bs + written ops
written (_ ∷ ops) = written ops

-- The stream is open at the position of the file, and the bytes in use are its text.
abbrev pub IsFile : BinarySignal → File → Type 0
IsFile s f = (s.stream ≡ some f.at) × (content s ≡ f.text) × (s.length ≤ length (bytes s.binary))

length-text : (s : BinarySignal) (f : File) → IsFile s f → length f.text ≡ s.length
length-text s f (open_at, same, fits) =
    ap (λ xs. length xs) (sym same) ∙ length-take s.length (bytes s.binary) fits

-- What the codec gets is the same, and the signal is the file after it.
IsAnswer : (ℕ × List ℕ) × BinarySignal → (ℕ × List ℕ) × File → Type 0
IsAnswer r a = (r.0 ≡ a.0) × IsFile r.1 a.1

opened_eq :
    {A : Type 0} (s : BinarySignal) (f : File) (closed : A) (opened : ℕ → A)
    → s.stream ≡ some f.at
    → with_stream s.stream closed opened ≡ opened f.at
unfolding with_stream
opened_eq s f closed opened e = ap (λ o. with_stream o closed opened) e

read_past :
    (s : BinarySignal) (f : File) (update : Bool)
    → IsFile s f
    → s.length ≤ f.at
    → IsAnswer ((0, []), s) (file_read f update)
unfolding file_read IsAnswer
read_past s f update (open_at, same, fits) past =
    let n = length-text s f (open_at, same, fits) in
    let nothing : drop f.at f.text ≡ [] = drop_all f.at f.text (omega arith) in
    let past' : leb (length f.text) f.at ≡ true = ground arith in
    elim (Bool-cases update) [
      | inl e ↦ rw (e, past', nothing) (refl, (open_at, same, fits))
      | inr e ↦ rw (e, nothing) (refl, (open_at, same, fits))
    ]

read_at-IsFile :
    (s : BinarySignal) (f : File) (update : Bool) (o : Option (List ℕ))
    → s.binary ≡ o
    → IsFile s f
    → IsAnswer (read_at s update f.at o) (file_read f update)
unfolding read_at file_read IsAnswer
read_at-IsFile s f update none here (open_at, same, fits) =
    let empty : length (bytes s.binary) ≡ 0 = ap (λ o. length (bytes o)) here in
    read_past s f update (open_at, same, fits) (omega arith)
read_at-IsFile s f update (some b) here (open_at, same, fits) =
    let n = length-text s f (open_at, same, fits) in
    let text_b : take s.length b ≡ f.text = ap (λ o. take s.length (bytes o)) (sym here) ∙ same in
    elim (Bool-cases (leb s.length f.at)) [
      | inl past ↦ rw past (read_past s f update (open_at, same, fits) (ground arith))
      | inr before ↦
          let rest : take (s.length - f.at) (drop f.at b) ≡ drop f.at f.text =
            take-drop f.at s.length b (ground arith) ∙ ap (λ xs. drop f.at xs) text_b in
          let size : length (drop f.at f.text) ≡ s.length - f.at =
            omega (arith, length-drop f.at f.text, n) in
          let before' : leb (length f.text) f.at ≡ false = rw n before in
          elim (Bool-cases update) [
            | inl e ↦ rw (e, before, before', size, rest) (refl, (ap some (sym n), same, fits))
            | inr e ↦ rw (e, before, size, rest) (refl, (open_at, same, fits))
          ]
    ]

-- The data follow the text up to the position.
write_at-IsFile :
    (buffers : Buffers) (s : BinarySignal) (f : File) (bs : List ℕ)
    → IsFile s f
    → length f.text + length bs < 2 ^ 32
    → IsAnswer (write_at buffers s bs f.at) (file_write f bs)
unfolding write_at file_write binary_append IsAnswer
write_at-IsFile buffers s f bs (open_at, same, fits) small =
    let n = length-text s f (open_at, same, fits) in
    let from = at_most s.length f.at in
    let le : from ≤ s.length = ground arith in
    let whole : take (length bs % 2 ^ 32) bs ≡ bs =
      take_all (length bs % 2 ^ 32) bs (omega arith) in
    let sum : (from + length bs) % 2 ^ 32 ≡ from + length bs = omega arith in
    let (used, inside, now) =
      buffers.append_lem s.binary from s.buffer_size bs (omega arith) (omega arith) in
    let cut : take from (bytes s.binary) ≡ take from f.text =
      sym (take-take from s.length (bytes s.binary) le) ∙ ap (λ xs. take from xs) same in
    rw (n, whole, sum, used) (refl, (refl, (rw cut at now), inside))

seek_at-IsFile :
    (s : BinarySignal) (f : File) (to : ℕ) (op : SeekOp)
    → IsFile s f
    → let r = seek_at s to op f.at in IsAnswer ((r.0, []), r.1) (file_seek f to op)
unfolding seek_at file_seek IsAnswer
seek_at-IsFile s f to SeekOp.seek_set (open_at, same, fits) =
    let n = length-text s f (open_at, same, fits) in rw n (refl, (refl, same, fits))
seek_at-IsFile s f to SeekOp.seek_cur (open_at, same, fits) =
    let n = length-text s f (open_at, same, fits) in rw n (refl, (refl, same, fits))
seek_at-IsFile s f to SeekOp.seek_end (open_at, same, fits) =
    let n = length-text s f (open_at, same, fits) in rw n (refl, (refl, same, fits))
seek_at-IsFile s f to SeekOp.seek_reset (open_at, same, fits) = (refl, (refl, refl, omega arith))
seek_at-IsFile s f to SeekOp.seek_other (open_at, same, fits) = (refl, (open_at, same, fits))

stream_call-IsFile :
    (buffers : Buffers) (s : BinarySignal) (f : File) (op : Op)
    → IsFile s f
    → length f.text + written (op ∷ []) < 2 ^ 32
    → IsAnswer (stream_call buffers s op) (file_call f op)
unfolding stream_call stream_read stream_write stream_seek stream_tell stream_eof IsAnswer
stream_call-IsFile buffers s f (Op.read update) h small =
    let closed : (ℕ × List ℕ) × BinarySignal = ((minus_enostr, []), s) in
    rw (opened_eq s f closed (λ pos. read_at s update pos s.binary) h.0)
      (read_at-IsFile s f update s.binary refl h)
stream_call-IsFile buffers s f (Op.write bs) h small =
    let closed : (ℕ × List ℕ) × BinarySignal = ((minus_enostr, []), s) in
    rw (opened_eq s f closed (write_at buffers s bs) h.0)
      (write_at-IsFile buffers s f bs h (omega arith))
stream_call-IsFile buffers s f (Op.seek to op) h small =
    let closed : ℕ × BinarySignal = (minus_enostr, s) in
    rw (opened_eq s f closed (seek_at s to op) h.0) (seek_at-IsFile s f to op h)
stream_call-IsFile buffers s f Op.tell h small =
    (ap (λ n. (n, [])) (opened_eq s f minus_enostr (λ pos. pos) h.0), h)
stream_call-IsFile buffers s f Op.eof h small =
    let n = length-text s f h in
    rw n (ap (λ n. (n, [])) (opened_eq s f 1 (λ pos. if ltb pos s.length then 0 else 1) h.0), h)

-- A call does not make the file longer than by what it writes.
file_call-length :
    (f : File) (op : Op) → length (file_call f op).1.text ≤ length f.text + written (op ∷ [])
unfolding file_read file_write file_seek
file_call-length f (Op.read true) = omega arith
file_call-length f (Op.read false) = omega arith
file_call-length f (Op.write bs) =
    let from = at_most (length f.text) f.at in
    let sum : length (take from f.text ++ bs) ≡ length (take from f.text) + length bs =
      length-append (take from f.text) bs in
    let less = take-shorter from f.text in
    let goal : length (take from f.text ++ bs) ≤ length f.text + (length bs + 0) = omega arith in
    goal
file_call-length f (Op.seek to SeekOp.seek_set) = omega arith
file_call-length f (Op.seek to SeekOp.seek_cur) = omega arith
file_call-length f (Op.seek to SeekOp.seek_end) = omega arith
file_call-length f (Op.seek to SeekOp.seek_reset) = omega arith
file_call-length f (Op.seek to SeekOp.seek_other) = omega arith
file_call-length f Op.tell = omega arith
file_call-length f Op.eof = omega arith

written-cons : (op : Op) (ops : List Op) → written (op ∷ ops) ≡ written (op ∷ []) + written ops
written-cons (Op.read update) ops = omega arith
written-cons (Op.write bs) ops = omega arith
written-cons (Op.seek to op) ops = omega arith
written-cons Op.tell ops = omega arith
written-cons Op.eof ops = omega arith

-- The stream of a signal is a file: whatever calls a codec makes, as long as the bytes of the signal
-- and those that are written fit a uint32_t together, it gets what a file that starts with the bytes
-- and the position of the signal gives it, and the signal stays that file.
pub stream_calls-IsFile :
    (buffers : Buffers) (s : BinarySignal) (f : File) (ops : List Op)
    → IsFile s f
    → length f.text + written ops < 2 ^ 32
    → ((stream_calls buffers s ops).0 ≡ (file_calls f ops).0)
      × IsFile (stream_calls buffers s ops).1 (file_calls f ops).1
unfolding stream_calls IsAnswer
stream_calls-IsFile buffers s f [] h small = (refl, h)
stream_calls-IsFile buffers s f (op ∷ ops) h small =
    let sum = written-cons op ops in
    let (same, h') = stream_call-IsFile buffers s f op h (omega arith) in
    let longer = file_call-length f op in
    let (rest, last) =
      stream_calls-IsFile buffers (stream_call buffers s op).1 (file_call f op).1 ops h'
        (omega arith) in
    (cc (same, rest), last)
