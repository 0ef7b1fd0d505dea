-- ===== src/Pdu/Parse/Within.antt =====
-- The signals that are parsed lie within the payloads of the matrix, so that packing them writes
-- nowhere else.
use dse_modelc.Base.{
  ℕ, zero, suc, ◌+◌, ◌*◌, ◌≤◌, ◌<◌, ◌≡◌, refl, sym, ap, subst, ◌∙◌, inl, inr, false, not, ◌||◌,
  Option, none, some, List, [], ◌∷◌, ◌++◌, map, arith, All, Bool-cases, some_cancel, length,
  length-append, length-replicate, replicate, set, append_assoc, ◌==◌, if◌then◌else◌, ℕ_discrete,
}
use dse_modelc.Double.{Double}
use dse_modelc.Word.{IsBytes}
use dse_modelc.Pdu.{SignalItem, PduItem, PduObject, Row, Net}
use dse_modelc.Pdu.Pack.Signal.{pack_signal-splice}
use dse_modelc.Pdu.Matrix.{payload_at, pack_row, pack_rows}
use dse_modelc.Pdu.Matrix.RoundTrip.{payload_at-set_self, payload_at-set_ne}
use dse_modelc.Pdu.Matrix.Transform.{
  make_object, signal_rows, place_objects, new_payload, matrix_transform,
}
use dse_modelc.Pdu.Parse.{
  SignalNode, PduNode, load_signal, is_invalid, signal_generator, parse_signals, pdu_generator,
  parse_pdus,
}

-- A signal that has bits, all of them within n bytes.
abbrev pub Lies : {D : Type 0} → ℕ → SignalItem D → Type 0
Lies n s = (0 < s.length_bits) × (s.start_bit + s.length_bits ≤ 8 * n)

-- All signals of a PDU lie within it.
abbrev pub LiesAll : {D : Type 0} → PduItem D → Type 0
LiesAll p = All (Lies p.length) p.signals

module _ {D : Type 0} (double : Double D) (nan : D) where
  valid-Lies : (n : ℕ) (s : SignalItem D) → is_invalid double nan n s ≡ false → Lies n s
  unfolding is_invalid
  valid-Lies n s e = (ground arith, ground arith)

  parse_signals-Lies :
      (n : ℕ) (ns : List (SignalNode D)) → All (Lies n) (parse_signals double nan n ns)
  unfolding parse_signals signal_generator
  parse_signals-Lies n [] = tt
  parse_signals-Lies n (x ∷ xs) =
      elim (Bool-cases (is_invalid double nan n (load_signal double nan x) || not x.has_name)) [
        | inl bad ↦ rw (parse_signals, signal_generator, bad) (parse_signals-Lies n xs)
        | inr good ↦
            let valid : is_invalid double nan n (load_signal double nan x) ≡ false = ground arith in
            rw (parse_signals, signal_generator, good)
              (valid-Lies n (load_signal double nan x) valid, parse_signals-Lies n xs)
      ]

  parse_pdus-LiesAll : (ns : List (PduNode D)) → All LiesAll (parse_pdus double nan ns)
  unfolding parse_pdus pdu_generator
  parse_pdus-LiesAll [] = tt
  parse_pdus-LiesAll (n ∷ ns) = elim (Bool-cases ((pdu_generator double nan n).id == 0)) [
    | inl missing ↦ rw missing (parse_pdus-LiesAll ns)
    | inr given ↦
        rw given
          (parse_signals-Lies (pdu_generator double nan n).length n.signals, parse_pdus-LiesAll ns)
  ]

module _ {D : Type 0} where
  -- The payload of the row is allocated and holds its bits.
  abbrev pub InPayload : List (Option (List ℕ)) → Row D → Type 0
  InPayload ps r =
      (p : List ℕ) × (payload_at ps r.pdu_idx ≡ some p)
      × IsBytes p
      × (r.start_bit + r.length_bits ≤ 8 * length p)

  All-append : (P : Row D → Type 0) (xs ys : List (Row D)) → All P xs → All P ys → All P (xs ++ ys)
  All-append P [] ys hx hy = hy
  All-append P (x ∷ xs) ys hx hy = (hx.0, All-append P xs ys hx.1 hy)

replicate-IsBytes : (n : ℕ) → IsBytes (replicate n 0)
replicate-IsBytes zero = tt
replicate-IsBytes (suc n) = (omega arith, replicate-IsBytes n)

payload_at-append :
    (before rest : List (Option (List ℕ))) (x : Option (List ℕ))
    → payload_at (before ++ x ∷ rest) (length before) ≡ x
unfolding payload_at
payload_at-append [] rest none = refl
payload_at-append [] rest (some p) = refl
payload_at-append (y ∷ before) rest x = payload_at-append before rest x

module _ {D : Type 0} (double : Double D) (step_size : D) where
  signal_rows-InPayload :
      (ps : List (Option (List ℕ))) (idx n sig_idx : ℕ) (ss : List (SignalItem D))
      → payload_at ps idx ≡ (if n == 0 then none else some (replicate n 0))
      → All (Lies n) ss
      → All (InPayload ps) (signal_rows double step_size idx sig_idx ss)
  signal_rows-InPayload ps idx n sig_idx [] e h = tt
  signal_rows-InPayload ps idx n sig_idx (s ∷ ss) e ((bits, room), h) =
      let some_room : (n == 0) ≡ false = ground arith in
      let here : payload_at ps idx ≡ some (replicate n 0) = rw some_room at e in
      let size : length {A = ℕ} (replicate n 0) ≡ n = length-replicate n 0 in
      (
        (replicate n 0, here, replicate-IsBytes n, omega arith),
        signal_rows-InPayload ps idx n (sig_idx + 1) ss e h,
      )

  place_objects-InPayload :
      (idx n : ℕ) (os : List (PduObject D)) (before : List (Option (List ℕ)))
      → length before ≡ idx
      → All (λ o. LiesAll o.item) os
      → let placed = place_objects double step_size idx n os in
        All (InPayload (before ++ map new_payload placed.0)) placed.1
  unfolding place_objects
  place_objects-InPayload idx n [] before e h = tt
  place_objects-InPayload idx n (o ∷ os) before e h =
      let rest = place_objects double step_size (idx + 1) (n + length o.item.signals) os in
      let later = map new_payload rest.0 in
      let all = before ++ new_payload o ∷ later in
      let at : payload_at all idx ≡ new_payload o =
        subst (λ i. payload_at all i ≡ new_payload o) e
          (payload_at-append before later (new_payload o)) in
      let next : length (before ++ new_payload o ∷ []) ≡ idx + 1 =
        omega (arith, length-append before (new_payload o ∷ [])) in
      All-append (InPayload all) (signal_rows double step_size idx 0 o.item.signals) rest.1
        (signal_rows-InPayload all idx o.item.length 0 o.item.signals at h.0)
        (subst (λ ps. All (InPayload ps) rest.1) (append_assoc before (new_payload o ∷ []) later)
          (place_objects-InPayload (idx + 1) (n + length o.item.signals) os
            (before ++ new_payload o ∷ []) next h.1))

module _ {D : Type 0} where
  -- A row that is packed leaves each row in its payload.
  pack_row-InPayload :
      (ps : List (Option (List ℕ))) (r : Row D)
      → InPayload ps r
      → (qs : List (Option (List ℕ))) × (pack_row r ps ≡ some qs)
        × ((s : Row D) → InPayload ps s → InPayload qs s)
  unfolding pack_row
  pack_row-InPayload ps r (p, here, w, room) =
      let (q, packs, w', size, u) = pack_signal-splice r.start_bit r.length_bits r.raw p w room in
      (
        set ps r.pdu_idx (some q),
        rw (here, packs) refl,
        λ s (p', there, ws, rooms). elim (ℕ_discrete r.pdu_idx s.pdu_idx) [
          | yes same ↦
              let p_p' : p ≡ p' = some_cancel (sym here ∙ ap (payload_at ps) same ∙ there) in
              let now =
                subst (λ i. payload_at (set ps r.pdu_idx (some q)) i ≡ some q) same
                  (payload_at-set_self ps r.pdu_idx p q here) in
              let size' : length q ≡ length p' = size ∙ ap (λ xs. length xs) p_p' in
              (q, now, w', omega arith)
          | no other ↦ (p', payload_at-set_ne ps r.pdu_idx s.pdu_idx q other ∙ there, ws, rooms)
        ],
      )

  All-InPayload :
      (ps qs : List (Option (List ℕ))) (rs : List (Row D))
      → ((s : Row D) → InPayload ps s → InPayload qs s)
      → All (InPayload ps) rs
      → All (InPayload qs) rs
  All-InPayload ps qs [] f h = tt
  All-InPayload ps qs (r ∷ rs) f h = (f r h.0, All-InPayload ps qs rs f h.1)

  pack_rows-runs :
      (ps : List (Option (List ℕ))) (rs : List (Row D))
      → All (InPayload ps) rs
      → (qs : List (Option (List ℕ))) × (pack_rows rs ps ≡ some qs)
  unfolding pack_rows
  pack_rows-runs ps [] h = (ps, refl)
  pack_rows-runs ps (r ∷ rs) h =
      let (qs, e, keeps) = pack_row-InPayload ps r h.0 in
      let (last, e') = pack_rows-runs qs rs (All-InPayload ps qs rs keeps h.1) in
      (last, rw (pack_rows, e) e')

  -- The rows with other raw values.
  abbrev pub with_values : (Row D → ℕ) → List (Row D) → List (Row D)
  with_values value [] = []
  with_values value (r ∷ rs) = record r { raw = value r } ∷ with_values value rs

  values-InPayload :
      (value : Row D → ℕ) (ps : List (Option (List ℕ))) (rs : List (Row D))
      → All (InPayload ps) rs
      → All (InPayload ps) (with_values value rs)
  values-InPayload value ps [] h = tt
  values-InPayload value ps (r ∷ rs) h = (h.0, values-InPayload value ps rs h.1)

  objects-LiesAll :
      (items : List (PduItem D))
      → All LiesAll items
      → All (λ o. LiesAll o.item) (map make_object items)
  objects-LiesAll [] h = tt
  objects-LiesAll (p ∷ ps) h = (h.0, objects-LiesAll ps h.1)

-- In a network whose PDUs are parsed, however its document sets the fields, every signal of the matrix
-- has its bits within the payload of its PDU, and packing all rows, with any raw values, succeeds; the
-- sorted PDU objects must be among those that were to be sorted.
pub parse_pdus-pack_rows :
    {D L : Type 0} (double : Double D) (nan : D) (sort : List (PduObject D) → List (PduObject D))
    (nodes : List (PduNode D)) (net : Net D L) (value : Row D → ℕ)
    → ((P : PduObject D → Type 0) (os : List (PduObject D)) → All P os → All P (sort os))
    → let net' = matrix_transform double sort (parse_pdus double nan nodes) net in
      All (InPayload net'.payloads) net'.rows
      × ((qs : List (Option (List ℕ))) × (pack_rows (with_values value net'.rows) net'.payloads
            ≡ some qs))
unfolding matrix_transform
parse_pdus-pack_rows double nan sort nodes net value sort_keeps =
    let items = parse_pdus double nan nodes in
    let net' = matrix_transform double sort items net in
    let lies =
      sort_keeps (λ o. LiesAll o.item) (map make_object items)
        (objects-LiesAll items (parse_pdus-LiesAll double nan nodes)) in
    let inside : All (InPayload net'.payloads) net'.rows =
      place_objects-InPayload double net.clock.step_size 0 0 (sort (map make_object items)) [] refl
        lies in
    (
      inside,
      pack_rows-runs net'.payloads (with_values value net'.rows)
          (values-InPayload value net'.payloads net'.rows inside),
    )
