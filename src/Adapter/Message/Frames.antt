-- ===== src/Adapter/Message/Frames.antt =====
-- A buffer of whole messages.
use dse_modelc.Base.{
  ℕ, zero, suc, ◌^◌, ◌≤◌, ◌<◌, ◌≡◌, refl, ap, subst, Bool, true, false, ◌||◌, Option, none, some,
  List, [], ◌∷◌, ◌++◌, append_assoc, arith, All, length, take, drop, ltb, ◌==◌, ◌>>=◌,
  length-append, drop-append, take-append,
}
use dse_modelc.Adapter.{Notice}
use dse_modelc.Adapter.Message.{
  Wire, Handler, process_sbno_message, process_stream, process_message_stream,
}

-- The messages one after the other, and whether one of them was found.
abbrev pub process_all :
    {D A : Type 0} → Handler D A → ℕ → List (Notice D) → Bool → A → Option (Bool × A)
process_all h token [] found a = some (found, a)
process_all h token (n ∷ ns) found a =
    process_sbno_message h token a n >>= (λ r. process_all h token ns (found || r.0) r.1)

-- How messages are written: the size in four bytes, and the bytes of the message.
pub record Writer (D : Type 0) (wire : Wire D) : Type 0 where
  pub size_prefix : ℕ → List ℕ
  pub body : Notice D → List ℕ
  pub length-size_prefix : (k : ℕ) → length (size_prefix k) ≡ 4
  pub read_back :
      (k : ℕ) (rest : List ℕ) → k < 2 ^ 32 → wire.read_size_prefix (size_prefix k ++ rest) ≡ k

-- A message that is written and read back, in a buffer of a size that its prefix can hold.
abbrev pub IsWritten : {D : Type 0} (wire : Wire D) → Writer D wire → Notice D → Type 0
IsWritten wire writer n =
    (wire.as_root (writer.body n) ≡ some n)
    × (0 < length (writer.body n))
    × (length (writer.body n) < 2 ^ 32)

bind_cong :
    {A B : Type 0} (o : Option A) {f g : A → Option B} → ((x : A) → f x ≡ g x) → o >>= f ≡ o >>= g
bind_cong none e = refl
bind_cong (some x) e = e x

module _ {D : Type 0} (wire : Wire D) (writer : Writer D wire) where
  -- One message with its size, and a buffer of messages.
  abbrev pub frame : Notice D → List ℕ
  frame n = writer.size_prefix (length (writer.body n)) ++ writer.body n

  abbrev pub frames : List (Notice D) → List ℕ
  frames [] = []
  frames (n ∷ ns) = frame n ++ frames ns

module _ {D A : Type 0} (wire : Wire D) (writer : Writer D wire) (h : Handler D A) (token : ℕ) where
  short_tail :
      (rounds : ℕ) (tail : List ℕ) (found : Bool) (a : A)
      → length tail < 4
      → process_stream wire h token rounds tail found a ≡ some (found, a)
  unfolding process_stream
  short_tail zero tail found a short = refl
  short_tail (suc rounds) tail found a short =
      let stop : ltb (length tail) 4 ≡ true = ground arith in rw (process_stream, stop)

  one_frame :
      (rounds : ℕ) (n : Notice D) (rest : List ℕ) (found : Bool) (a : A)
      → IsWritten wire writer n
      → process_stream wire h token (suc rounds) (frame wire writer n ++ rest) found a
        ≡ process_sbno_message h token a n
          >>= (λ r. process_stream wire h token rounds rest (found || r.0) r.1)
  unfolding process_stream
  one_frame rounds n rest found a (back, positive, bound) =
      let body = writer.body n in
      let prefix = writer.size_prefix (length body) in
      let assoc : (prefix ++ body) ++ rest ≡ prefix ++ (body ++ rest) =
        append_assoc prefix body rest in
      let four : length prefix ≡ 4 = writer.length-size_prefix (length body) in
      let size : wire.read_size_prefix (prefix ++ (body ++ rest)) ≡ length body =
        writer.read_back (length body) (body ++ rest) bound in
      let after : drop 4 (prefix ++ (body ++ rest)) ≡ body ++ rest =
        subst (λ k. drop k (prefix ++ (body ++ rest)) ≡ body ++ rest) four
          (drop-append prefix (body ++ rest)) in
      let long : ltb (length (prefix ++ (body ++ rest))) 4 ≡ false =
        ground (arith, length-append prefix (body ++ rest), four) in
      let nonempty : (length body == 0) ≡ false = ground (arith, positive) in
      let whole : ltb (length (body ++ rest)) (length body) ≡ false =
        ground (arith, length-append body rest) in
      let message : take (length body) (body ++ rest) ≡ body = take-append body rest in
      let root : wire.as_root body ≡ some n = back in
      let next : drop (length body) (body ++ rest) ≡ rest = drop-append body rest in
      let over : drop (wire.read_size_prefix (frame wire writer n ++ rest))
            (drop 4 (frame wire writer n ++ rest))
          ≡ rest =
        rw (assoc, size, after, next) in
      rw (process_stream, assoc, size, after, long, nonempty, whole, message, root)
        (bind_cong (process_sbno_message h token a n)
          (λ r. ap (λ b. process_stream wire h token rounds b (found || r.0) r.1) over))

  length-frame : (n : Notice D) → IsWritten wire writer n → 4 < length (frame wire writer n)
  length-frame n written = omega (
    arith,
    length-append (writer.size_prefix (length (writer.body n))) (writer.body n),
    writer.length-size_prefix (length (writer.body n)),
    written.1,
  )

  enough_rounds :
      (ns : List (Notice D)) (tail : List ℕ) (rounds : ℕ) (found : Bool) (a : A)
      → All (IsWritten wire writer) ns
      → length tail < 4
      → length (frames wire writer ns ++ tail) ≤ rounds
      → process_stream wire h token rounds (frames wire writer ns ++ tail) found a
        ≡ process_all h token ns found a
  enough_rounds [] tail rounds found a written short enough = short_tail rounds tail found a short
  enough_rounds (n ∷ ns) tail zero found a written short enough = absurd (
      omega (
        arith,
        length-append (frame wire writer n ++ frames wire writer ns) tail,
        length-append (frame wire writer n) (frames wire writer ns),
        length-frame n written.0,
      ))
  enough_rounds (n ∷ ns) tail (suc rounds) found a written short enough =
      let rest = frames wire writer ns ++ tail in
      let assoc : (frame wire writer n ++ frames wire writer ns) ++ tail
          ≡ frame wire writer n ++ rest =
        append_assoc (frame wire writer n) (frames wire writer ns) tail in
      let enough' : length rest ≤ rounds = omega (
        arith,
        ap length assoc,
        length-append (frame wire writer n) rest,
        length-frame n written.0,
      ) in
      rw (assoc, one_frame rounds n rest found a written.0)
        (bind_cong (process_sbno_message h token a n)
          (λ r. enough_rounds ns tail rounds (found || r.0) r.1 written.1 short enough'))

  -- A buffer of whole messages, and less than a size prefix after them: every message is processed,
  -- in order, and the call tells whether one of them was what the caller waits for.
  pub process_message_stream-frames :
      (ns : List (Notice D)) (tail : List ℕ) (a : A)
      → All (IsWritten wire writer) ns
      → length tail < 4
      → process_message_stream wire h token (frames wire writer ns ++ tail) a
        ≡ process_all h token ns false a
  process_message_stream-frames ns tail a written short =
      enough_rounds ns tail (length (frames wire writer ns ++ tail)) false a written short
        (omega arith)
