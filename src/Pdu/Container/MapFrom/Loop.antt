-- ===== src/Pdu/Container/MapFrom/Loop.antt =====
-- The whole loop over a received container.
use dse_modelc.Base.{
  ℕ, suc, ◌+◌, ◌≤◌, ◌<◌, ◌^◌, ◌≡◌, refl, sym, ap, ◌∙◌, inl, inr, true, false, ◌||◌, Option, none,
  some, List, [], ◌∷◌, ◌++◌, arith, All, Bool-cases, length, length-append, append_assoc, ltb, ◌==◌,
  ◌>>=◌,
}
use dse_modelc.Word.{u64}
use dse_modelc.Pdu.{HeaderFormat, MPduItem, PduObject}
use dse_modelc.Pdu.Script.{Scripts}
use dse_modelc.Pdu.Container.{header_length, header_bytes, read_header}
use dse_modelc.Pdu.Container.Header.{
  Carries, Carries-positive, length-header_bytes, read_header-header_bytes, zeros,
  read_header-zeros,
}
use dse_modelc.Pdu.Container.MapFrom.{Inbox, Run, attempt, deliver, map_from}
use dse_modelc.Pdu.Container.MapFrom.Frames.{
  Frame, encode, store, store_all, HasNoRx, deliver_frame,
}

module _ {D L : Type 0} (scripts : Scripts D L) (pdus : List (PduObject D)) where
  pub map_past :
      (rounds : ℕ) (format : HeaderFormat) (is : List MPduItem) (n offset : ℕ) (b : Inbox L)
      → n ≤ offset
      → map_from scripts pdus (suc rounds) format is n offset b ≡ Run.ended b
  unfolding map_from
  map_past rounds format is n offset b h =
      let e : ltb offset n ≡ false = ground arith in rw (e, map_from)

  map_end :
      (rounds : ℕ) (format : HeaderFormat) (is : List MPduItem) (n offset len : ℕ) (b : Inbox L)
      → read_header format b.payload n offset ≡ some (0, len)
      → map_from scripts pdus (suc rounds) format is n offset b ≡ Run.ended b
  unfolding map_from
  map_end rounds format is n offset len b h = elim (Bool-cases (ltb offset n)) [
    | inl e ↦ rw (map_from, e, h)
    | inr e ↦ rw (map_from, e)
  ]

  pub map_header :
      (rounds : ℕ) (format : HeaderFormat) (is : List MPduItem) (n offset id len : ℕ) (b : Inbox L)
      → ltb offset n ≡ true
      → read_header format b.payload n offset ≡ some (id, len)
      → map_from scripts pdus (suc rounds) format is n offset b
        ≡ elim (id == 0 || ltb n (u64 (u64 (offset + header_length format) + len))) [
          | true ↦ Run.ended b
          | false ↦
              attempt
                (deliver scripts pdus is id (u64 (offset + header_length format)) len b)
                (λ b'.
                  map_from scripts pdus rounds format is n
                    (u64 (u64 (offset + header_length format) + len))
                    b')
        ]
  unfolding map_from
  map_header rounds format is n offset id len b inside e = rw (map_from, inside, e)

  map_step :
      (rounds : ℕ) (format : HeaderFormat) (is : List MPduItem) (n offset id len : ℕ) (b : Inbox L)
      → offset < n
      → n < 2 ^ 64
      → read_header format b.payload n offset ≡ some (id, len)
      → 1 ≤ id
      → offset + header_length format + len ≤ n
      → map_from scripts pdus (suc rounds) format is n offset b
        ≡ attempt (deliver scripts pdus is id (offset + header_length format) len b) (λ b'.
          map_from scripts pdus rounds format is n (offset + header_length format + len) b')
  unfolding map_from
  map_step rounds format is n offset id len b h w e pos fits =
      let inside : ltb offset n ≡ true = ground arith in
      let start : u64 (offset + header_length format) ≡ offset + header_length format =
        omega arith in
      let end = u64 (u64 (offset + header_length format) + len) in
      let last : end ≡ offset + header_length format + len = omega arith in
      let go : (id == 0 || ltb n end) ≡ false = ground arith in
      map_header rounds format is n offset id len b inside e
      ∙ rw go (
          ap
            (λ z.
              attempt (deliver scripts pdus is id z len b)
                (λ b'. map_from scripts pdus rounds format is n end b'))
            start
          ∙ ap
              (λ z.
                attempt (deliver scripts pdus is id (offset + header_length format) len b)
                  (λ b'. map_from scripts pdus rounds format is n z b'))
              last)

  rest_stored :
      {A : Type 0} {B : Type 0} (o : Option A) (mk : A → B) (f : B → Run B) (g : A → Option A)
      → ((a : A) → f (mk a) ≡ attempt (g a) (λ x. Run.ended (mk x)))
      → attempt (o >>= (λ a. some (mk a))) f ≡ attempt (o >>= g) (λ x. Run.ended (mk x))
  rest_stored none mk f g h = refl
  rest_stored (some a) mk f g h = h a

  -- A container is received in full, whatever lies in the I-PDUs: if, behind some bytes, it holds
  -- frames that its header format can carry, and then zeros, and its I-PDUs have no Rx function,
  -- then the loop ends from there, in at most one round more than there are frames, and has
  -- stored each frame, in order, in the first I-PDU of its identifier, or faults where storing
  -- them so does. The container is shorter than 2 ^ 64 bytes.
  pub map_from-encode :
      (format : HeaderFormat) (is : List MPduItem) (fs : List Frame) (before : List ℕ) (n : ℕ)
      (b : Inbox L)
      → HasNoRx scripts pdus is
      → All (λ f. Carries format f.0 (length f.1)) fs
      → b.payload ≡ before ++ (encode format fs ++ zeros n)
      → length b.payload < 2 ^ 64
      → map_from scripts pdus (suc (length fs)) format is (length b.payload) (length before) b
        ≡ attempt (store_all pdus is fs b.payloads) (λ ps. Run.ended (record b { payloads = ps }))
  map_from-encode format is [] before n b no_rx carries e w =
      map_end 0 format is (length b.payload) (length before) 0 b
        (rw e (read_header-zeros format before n))
  map_from-encode format is ((id, bytes) ∷ fs) before n b no_rx carries e w =
      let head = header_bytes format id (length bytes) in
      let rest = encode format fs ++ zeros n in
      let (pos, sized) = Carries-positive format id (length bytes) carries.0 in
      let head_length = length-header_bytes format id (length bytes) in
      let shape : b.payload ≡ before ++ (head ++ (bytes ++ rest)) =
        e
        ∙ ap (λ z. before ++ z)
            (append_assoc (head ++ bytes) (encode format fs) (zeros n)
              ∙ append_assoc head bytes rest) in
      let shape' : b.payload ≡ (before ++ head) ++ (bytes ++ rest) =
        shape ∙ sym (append_assoc before head (bytes ++ rest)) in
      let shape'' : b.payload ≡ ((before ++ head) ++ bytes) ++ rest =
        shape' ∙ sym (append_assoc (before ++ head) bytes rest) in
      let size : length b.payload
          ≡ length before + (header_length format + (length bytes + length rest)) =
        ap length shape
        ∙ omega (
          arith,
          length-append before (head ++ (bytes ++ rest)),
          length-append head (bytes ++ rest),
          length-append bytes rest,
          head_length,
        ) in
      let start : length before + header_length format ≡ length (before ++ head) =
        omega (arith, length-append before head, head_length) in
      let end : length (before ++ head) + length bytes ≡ length ((before ++ head) ++ bytes) =
        sym (length-append (before ++ head) bytes) in
      let header : read_header format b.payload (length b.payload) (length before)
          ≡ some (id, length bytes) =
        rw shape
          (read_header-header_bytes format before (bytes ++ rest) id (length bytes) carries.0) in
      let next = λ (ps : List (Option (List ℕ))).
        map_from-encode format is fs ((before ++ head) ++ bytes) n (record b { payloads = ps })
          no_rx carries.1 shape'' w in
      map_step (suc (length fs)) format is (length b.payload) (length before) id (length bytes) b
        (omega arith) w header pos (omega arith)
      ∙ rw (start, end, deliver_frame scripts pdus is id (before ++ head) bytes rest b no_rx shape')
          (rest_stored (store pdus is (id, bytes) b.payloads) (λ ps. record b { payloads = ps })
            (λ b'.
              map_from scripts pdus (suc (length fs)) format is (length b.payload)
                (length ((before ++ head) ++ bytes)) b')
            (store_all pdus is fs) next)
