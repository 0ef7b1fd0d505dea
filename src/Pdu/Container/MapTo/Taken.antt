-- ===== src/Pdu/Container/MapTo/Taken.antt =====
-- One round of the loop over the I-PDUs of a container.
use dse_modelc.Base.{
  ℕ, ◌+◌, ◌-◌, ◌≤◌, ◌≡◌, ◌≢◌, refl, sym, ap, subst, ◌∙◌, inl, inr, Bool, true, false, not, ◌||◌,
  some, List, [], ◌∷◌, ◌++◌, arith, Bool-cases, length, length-append, get_elem?, get_elem?-set_ne,
  set, ltb, leb, ◌==◌,
}
use dse_modelc.Pdu.{HeaderFormat, MPduItem, PduObject}
use dse_modelc.Pdu.Script.{Scripts}
use dse_modelc.Pdu.Tx.{checksum, Visit, call_tx_func}
use dse_modelc.Pdu.Matrix.{payload_at}
use dse_modelc.Pdu.Container.{header_length, header_bytes}
use dse_modelc.Pdu.Container.Header.{Carries, zeros, length-header_bytes}
use dse_modelc.Pdu.Container.MapFrom.Frames.{Frame, frame_bytes, encode}
use dse_modelc.Pdu.Container.MapTo.{Mapping, insert_accepted, map_one}
use dse_modelc.Pdu.Container.MapTo.Fill.{
  Filled, insert_pdu-frame, encode-append, Offers, chosen, payload_at-same, read_whole,
}

no_tx :
    {D L : Type 0} (scripts : Scripts D L) (v : Visit D L)
    → v.object.tx_ref ≡ 0
    → call_tx_func scripts v ≡ v
unfolding call_tx_func
no_tx scripts v e =
    let skip : (not v.object.needs_tx || v.object.tx_ref == 0) ≡ true = ground arith in
    rw (call_tx_func, skip)

pub append_nil : (fs : List Frame) → fs ++ [] ≡ fs
append_nil [] = refl
append_nil (f ∷ fs) = ap (λ gs. f ∷ gs) (append_nil fs)

module _ {D L : Type 0} (scripts : Scripts D L) (format : HeaderFormat) (payload_len : ℕ) where
  -- What one round does: it takes some frames, and leaves what the other I-PDUs offer.
  unfoldable pub IsTaken : MPduItem → Bool × Frame → List Frame → ℕ → Mapping D L → Type 0
  IsTaken i x fs n m =
      (m' : Mapping D L) × (gs : List Frame) × (n' : ℕ) × (map_one scripts format payload_len i m
        ≡ some m')
      × Filled scripts format payload_len m' (fs ++ gs) n'
      × ((xs : List (Bool × Frame))
          → chosen scripts format payload_len n (x ∷ xs)
            ≡ gs ++ chosen scripts format payload_len n' xs)
      × ((j : MPduItem) (y : Bool × Frame)
          → i.pdu ≢ j.pdu
          → Offers scripts format payload_len m j y
          → Offers scripts format payload_len m' j y)

  -- The room that a frame leaves.
  encode_left :
      (fs : List Frame) (f : Frame) (n : ℕ)
      → payload_len ≡ length (encode format fs) + n
      → header_length format + length f.1 ≤ n
      → payload_len
        ≡ length (encode format (fs ++ f ∷ [])) + (n - (header_length format + length f.1))
  encode_left fs (id, bytes) n whole room =
      let frame : length (frame_bytes format (id, bytes)) ≡ header_length format + length bytes =
        length-append (header_bytes format id (length bytes)) bytes
        ∙ ap (λ k. k + length bytes) (length-header_bytes format id (length bytes)) in
      let text_length : length (encode format (fs ++ (id, bytes) ∷ []))
          ≡ length (encode format fs) + length (frame_bytes format (id, bytes)) =
        ap length (encode-append scripts format payload_len fs (id, bytes))
        ∙ length-append (encode format fs) (frame_bytes format (id, bytes)) in
      omega arith

  -- The visited I-PDU changes nothing of what another one offers.
  keep-Offers :
      (i j : MPduItem) (y : Bool × Frame) (m : Mapping D L) (o1 o2 : PduObject D) (k : ℕ)
      (bytes : List ℕ) (m' : Mapping D L)
      → i.pdu ≢ j.pdu
      → payload_at m.payloads k ≡ some bytes
      → m'.pdus ≡ set (set m.pdus i.pdu o1) i.pdu o2
      → m'.payloads ≡ set m.payloads k (some bytes)
      → Offers scripts format payload_len m j y
      → Offers scripts format payload_len m' j y
  keep-Offers i j y m o1 o2 k bytes m' other here pdus payloads (p, found, a, b, c, d, e, f) = (
    p,
    ap (λ ps. get_elem? ps j.pdu) pdus
        ∙ get_elem?-set_ne (set m.pdus i.pdu o1) o2 other
        ∙ get_elem?-set_ne m.pdus o1 other
        ∙ found,
    a,
    b,
    ap (λ ps. payload_at ps p.pdu_idx) payloads
        ∙ payload_at-same scripts format payload_len m.payloads k p.pdu_idx bytes here
        ∙ c,
    d,
    e,
    f,
  )

  -- An I-PDU that needs Tx and fits.
  taken :
      (i : MPduItem) (x : Bool × Frame) (fs : List Frame) (n : ℕ) (m : Mapping D L)
      (o : PduObject D)
      → get_elem? m.pdus i.pdu ≡ some o
      → o.needs_tx ≡ true
      → x.0 ≡ true
      → o.tx_ref ≡ 0
      → payload_at m.payloads o.pdu_idx ≡ some x.1.1
      → length x.1.1 ≡ o.item.length
      → i.id ≡ x.1.0
      → Carries format i.id o.item.length
      → m.payload ≡ encode format fs ++ zeros n
      → m.payload_offset ≡ length (encode format fs)
      → payload_len ≡ length (encode format fs) + n
      → leb (header_length format + length x.1.1) n ≡ true
      → IsTaken i x fs n m
  unfolding map_one IsTaken insert_accepted
  taken i x fs n m o at needs wants tx here size id carries payload offset whole fits =
      let bytes = x.1.1 in
      let o1 = record o { checksum = checksum (some bytes) } in
      let o2 = record o1 { needs_tx = false } in
      let m1 = record m {
        pdus = set m.pdus i.pdu o1;
        payloads = set m.payloads o.pdu_idx (some bytes);
        lua = m.lua;
      } in
      let room : header_length format + length bytes ≤ n = ground arith in
      let inserted =
        insert_pdu-frame scripts format payload_len i o1 bytes (encode format fs) n m1 payload
          offset size carries room in
      let goes : not o.needs_tx ≡ false = ground arith in
      let enough : ltb (payload_len - m.payload_offset) (o.item.length + header_length format)
          ≡ false =
        ground arith in
      let accepted : not o1.needs_tx ≡ false = goes in
      let same_frame : frame_bytes format (i.id, bytes) ≡ frame_bytes format x.1 =
        ap (λ k. frame_bytes format (k, bytes)) id in
      let text : encode format fs ++ frame_bytes format (i.id, bytes)
          ≡ encode format (fs ++ x.1 ∷ []) =
        ap (λ ys. encode format fs ++ ys) same_frame
        ∙ sym (encode-append scripts format payload_len fs x.1) in
      let m2 = record m1 {
        pdus = set m1.pdus i.pdu o2;
        payload =
            (encode format fs ++ frame_bytes format (i.id, bytes))
            ++ zeros (n - (header_length format + length bytes));
        payload_offset = length (encode format fs ++ frame_bytes format (i.id, bytes));
        needs_tx = true;
      } in
      (
        m2,
        x.1 ∷ [],
        n - (header_length format + length bytes),
        (rw
            (
              map_one,
              at,
              goes,
              enough,
              here,
              read_whole bytes o.item.length size,
              no_tx scripts (record { object = o1; payload = some bytes; lua = m.lua }) tx,
              accepted,
            )
            inserted),
        (
          ap (λ ys. ys ++ zeros (n - (header_length format + length bytes))) text,
          ap length text,
          encode_left fs x.1 n whole room,
        ),
        (λ xs. rw (wants, fits) refl),
        λ j y other offers.
            keep-Offers i j y m o1 o2 o.pdu_idx bytes m2 other here refl refl offers,
      )

  pub map_one-IsTaken :
      (i : MPduItem) (x : Bool × Frame) (fs : List Frame) (n : ℕ) (m : Mapping D L)
      → Offers scripts format payload_len m i x
      → Filled scripts format payload_len m fs n
      → IsTaken i x fs n m
  unfolding map_one IsTaken insert_accepted
  map_one-IsTaken i x fs n m (o, at, needs, tx, here, size, id, carries) (payload, offset, whole) =
      let still =
        subst (λ gs. Filled scripts format payload_len m gs n) (sym (append_nil fs))
          (payload, offset, whole) in
      elim (Bool-cases x.0) [
        | inr idle ↦
            let skips : not o.needs_tx ≡ true = ground arith in
            (
              m,
              [],
              n,
              rw (map_one, at, skips),
              still,
              (λ xs. rw idle refl),
              λ j y other offers. offers,
            )
        | inl wants ↦
            let goes : not o.needs_tx ≡ false = ground arith in
            elim (Bool-cases (leb (header_length format + length x.1.1) n)) [
              | inr full ↦
                  let no_room : ltb (payload_len - m.payload_offset)
                        (o.item.length + header_length format)
                      ≡ true =
                    ground arith in
                  (
                    record m {
                      pdus = set m.pdus i.pdu (record o { needs_tx = false; checksum = 0 });
                    },
                    [],
                    n,
                    rw (map_one, at, goes, no_room),
                    still,
                    (λ xs. rw (wants, full) refl),
                    λ j y other (p, found, a, b, c, d, e, f). (
                      p,
                      get_elem?-set_ne m.pdus (record o { needs_tx = false; checksum = 0 }) other
                          ∙ found,
                      a,
                      b,
                      c,
                      d,
                      e,
                      f,
                    ),
                  )
              | inl fits ↦
                  taken i x fs n m o at (needs ∙ wants) wants tx here size id carries payload offset
                    whole fits
            ]
      ]
