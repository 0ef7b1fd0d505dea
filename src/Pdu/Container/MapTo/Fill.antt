-- ===== src/Pdu/Container/MapTo/Fill.antt =====
-- What the loop over the I-PDUs writes into a container.
use dse_modelc.Base.{
  ℕ, ◌+◌, ◌-◌, ◌≤◌, ◌≡◌, ◌≢◌, refl, sym, ap, subst, ◌∙◌, Bool, true, false, ◌&&◌, Option, some,
  List, [], ◌∷◌, ◌++◌, arith, All, length, length-append, length-replicate, append_assoc,
  drop-append, take-append, take_all, get_elem?, set, drop, leb, if◌then◌else◌, ℕ_discrete,
}
use dse_modelc.Pdu.{HeaderFormat, MPduItem, PduObject}
use dse_modelc.Pdu.Script.{Scripts}
use dse_modelc.Pdu.Matrix.{payload_at}
use dse_modelc.Pdu.Matrix.RoundTrip.{payload_at-set_self, payload_at-set_ne}
use dse_modelc.Pdu.Container.{header_length, header_len, header_bytes, write_bytes, read_bytes}
use dse_modelc.Pdu.Container.Header.{Carries, length-header_bytes, zeros, zeros_split}
use dse_modelc.Pdu.Container.MapFrom.Frames.{Frame, frame_bytes, encode}
use dse_modelc.Pdu.Container.MapTo.{Mapping, insert_pdu}

length-zeros : (n : ℕ) → length (zeros n) ≡ n
length-zeros n = length-replicate n 0

-- Bytes written behind what lies in the container already.
write_zeros :
    (before bytes : List ℕ) (n : ℕ)
    → length bytes ≤ n
    → write_bytes (before ++ zeros n) (length before) bytes
      ≡ some ((before ++ bytes) ++ zeros (n - length bytes))
unfolding write_bytes
write_zeros before bytes n room =
    let k = length bytes in
    let size : length (before ++ zeros n) ≡ length before + n =
      length-append before (zeros n) ∙ ap (λ j. length before + j) (length-zeros n) in
    let fits : leb (length before + k) (length (before ++ zeros n)) ≡ true = ground arith in
    let shape : before ++ zeros n ≡ (before ++ zeros k) ++ zeros (n - k) =
      ap (λ zs. before ++ zs) (zeros_split k n room)
      ∙ sym (append_assoc before (zeros k) (zeros (n - k))) in
    let up_to : length (before ++ zeros k) ≡ length before + k =
      length-append before (zeros k) ∙ ap (λ j. length before + j) (length-zeros k) in
    let rest : drop (length before + k) (before ++ zeros n) ≡ zeros (n - k) =
      ap (λ xs. drop (length before + k) xs) shape
      ∙ ap (λ j. drop j ((before ++ zeros k) ++ zeros (n - k))) (sym up_to)
      ∙ drop-append (before ++ zeros k) (zeros (n - k)) in
    rw (write_bytes, fits, take-append before (zeros n), rest)
      (ap some (sym (append_assoc before bytes (zeros (n - k)))))

pub read_whole : (bytes : List ℕ) (n : ℕ) → length bytes ≡ n → read_bytes bytes 0 n ≡ some bytes
unfolding read_bytes
read_whole bytes n e =
    let fits : leb (0 + n) (length bytes) ≡ true = ground arith in
    rw (read_bytes, fits, take_all n bytes (omega arith)) refl

header_len-Carries :
    (format : HeaderFormat) (id len : ℕ) → Carries format id len → header_len format len ≡ len
unfolding Carries header_len
header_len-Carries HeaderFormat.none id len h = absurd (h tt)
header_len-Carries HeaderFormat.static id len h = absurd (h tt)
header_len-Carries HeaderFormat.short id len (a, b, c) = omega arith
header_len-Carries HeaderFormat.full id len (a, b, c) = omega arith

module _ {D L : Type 0} (scripts : Scripts D L) (format : HeaderFormat) (payload_len : ℕ) where
  -- The container holds frames, then zeros, and the next frame goes behind the last one.
  abbrev pub Filled : Mapping D L → List Frame → ℕ → Type 0
  Filled m fs n =
      (m.payload ≡ encode format fs ++ zeros n)
      × (m.payload_offset ≡ length (encode format fs))
      × (payload_len ≡ length (encode format fs) + n)

  -- A frame behind a text of the container.
  pub insert_pdu-frame :
      (i : MPduItem) (o : PduObject D) (bytes before : List ℕ) (n : ℕ) (m : Mapping D L)
      → m.payload ≡ before ++ zeros n
      → m.payload_offset ≡ length before
      → length bytes ≡ o.item.length
      → Carries format i.id o.item.length
      → header_length format + length bytes ≤ n
      → insert_pdu scripts format payload_len i o bytes m
        ≡ some (record m {
          pdus = set m.pdus i.pdu (record o { needs_tx = false });
          payload =
              (before ++ frame_bytes format (i.id, bytes))
              ++ zeros (n - (header_length format + length bytes));
          payload_offset = length (before ++ frame_bytes format (i.id, bytes));
          needs_tx = true;
        })
  unfolding insert_pdu
  insert_pdu-frame i o bytes before n m at offset size carries room =
      let h = header_length format in
      let head = header_bytes format i.id o.item.length in
      let same_head : head ≡ header_bytes format i.id (length bytes) =
        ap (λ k. header_bytes format i.id k) (sym size) in
      let head_length : length head ≡ h = length-header_bytes format i.id o.item.length in
      let whole : header_len format o.item.length ≡ length bytes =
        header_len-Carries format i.id o.item.length carries ∙ sym size in
      let after : length (before ++ head) ≡ length before + h =
        omega (arith, length-append before head) in
      let w1 : write_bytes m.payload m.payload_offset head
          ≡ some ((before ++ head) ++ zeros (n - h)) =
        ap (λ p. write_bytes p m.payload_offset head) at
        ∙ ap (λ k. write_bytes (before ++ zeros n) k head) offset
        ∙ write_zeros before head n (omega arith)
        ∙ ap (λ k. some ((before ++ head) ++ zeros (n - k))) head_length in
      let w2 : read_bytes bytes 0 (header_len format o.item.length) ≡ some bytes =
        read_whole bytes (header_len format o.item.length) (sym whole) in
      let to : m.payload_offset + h ≡ length (before ++ head) = omega arith in
      let w3 : write_bytes ((before ++ head) ++ zeros (n - h)) (m.payload_offset + h) bytes
          ≡ some (((before ++ head) ++ bytes) ++ zeros (n - h - length bytes)) =
        ap (λ k. write_bytes ((before ++ head) ++ zeros (n - h)) k bytes) to
        ∙ write_zeros (before ++ head) bytes (n - h) (omega arith) in
      let frame : (before ++ head) ++ bytes ≡ before ++ frame_bytes format (i.id, bytes) =
        append_assoc before head bytes ∙ ap (λ x. before ++ (x ++ bytes)) same_head in
      let left : n - h - length bytes ≡ n - (h + length bytes) = omega arith in
      let payload : ((before ++ head) ++ bytes) ++ zeros (n - h - length bytes)
          ≡ (before ++ frame_bytes format (i.id, bytes)) ++ zeros (n - (h + length bytes)) =
        ap (λ x. x ++ zeros (n - h - length bytes)) frame
        ∙ ap (λ k. (before ++ frame_bytes format (i.id, bytes)) ++ zeros k) left in
      let end : m.payload_offset + h + header_len format o.item.length
          ≡ length (before ++ frame_bytes format (i.id, bytes)) =
        omega (arith, length-append (before ++ head) bytes) ∙ ap (λ xs. length xs) frame in
      rw (insert_pdu, w1, w2, w3)
        (ap
            (λ p. some (record m {
              pdus = set m.pdus i.pdu (record o { needs_tx = false });
              payload = p;
              payload_offset = m.payload_offset + h + header_len format o.item.length;
              needs_tx = true;
            }))
            payload
          ∙ ap
              (λ k. some (record m {
                pdus = set m.pdus i.pdu (record o { needs_tx = false });
                payload =
                    (before ++ frame_bytes format (i.id, bytes)) ++ zeros (n - (h + length bytes));
                payload_offset = k;
                needs_tx = true;
              }))
              end)

  pub encode-append :
      (fs : List Frame) (f : Frame)
      → encode format (fs ++ f ∷ []) ≡ encode format fs ++ frame_bytes format f
  encode-append [] f = append_nil (frame_bytes format f)
    where
      append_nil : (xs : List ℕ) → xs ++ [] ≡ xs
      append_nil [] = refl
      append_nil (x ∷ xs) = ap (λ ys. x ∷ ys) (append_nil xs)
  encode-append (g ∷ fs) f =
      ap (λ xs. frame_bytes format g ++ xs) (encode-append fs f)
      ∙ sym (append_assoc (frame_bytes format g) (encode format fs) (frame_bytes format f))

  -- What an I-PDU offers: whether it needs Tx, and its frame. It has no Tx function.
  abbrev pub Offers : Mapping D L → MPduItem → Bool × Frame → Type 0
  Offers m i x =
      (o : PduObject D) × (get_elem? m.pdus i.pdu ≡ some o)
      × (o.needs_tx ≡ x.0)
      × (o.tx_ref ≡ 0)
      × (payload_at m.payloads o.pdu_idx ≡ some x.1.1)
      × (length x.1.1 ≡ o.item.length)
      × (i.id ≡ x.1.0)
      × Carries format i.id o.item.length

  abbrev pub OffersAll : Mapping D L → List MPduItem → List (Bool × Frame) → Type 0
  OffersAll m [] [] = Unit
  OffersAll m (i ∷ is) (x ∷ xs) = Offers m i x × OffersAll m is xs
  OffersAll m _ _ = ¬ Unit

  -- Each I-PDU is in the list once.
  abbrev pub AreDistinct : List MPduItem → Type 0
  AreDistinct [] = Unit
  AreDistinct (i ∷ is) = All (λ j. i.pdu ≢ j.pdu) is × AreDistinct is

  -- The frames that are taken, in order: each that needs Tx and fits what is left.
  abbrev pub chosen : ℕ → List (Bool × Frame) → List Frame
  chosen room [] = []
  chosen room (x ∷ xs) =
      let size = header_length format + length x.1.1 in
      if x.0 && leb size room then x.1 ∷ chosen (room - size) xs else chosen room xs

  pub payload_at-same :
      (ps : List (Option (List ℕ))) (k j : ℕ) (p : List ℕ)
      → payload_at ps k ≡ some p
      → payload_at (set ps k (some p)) j ≡ payload_at ps j
  payload_at-same ps k j p e = elim (ℕ_discrete k j) [
    | yes same ↦
        subst (λ x. payload_at (set ps k (some p)) x ≡ payload_at ps x) same
          (payload_at-set_self ps k p p e ∙ sym e)
    | no other ↦ payload_at-set_ne ps k j p other
  ]
