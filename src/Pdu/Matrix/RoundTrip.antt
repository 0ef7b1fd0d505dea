-- ===== src/Pdu/Matrix/RoundTrip.antt =====
-- The signals of a network, packed one after the other and unpacked again.
use dse_modelc.Base.{
  ℕ, zero, suc, ◌+◌, ◌*◌, ◌%◌, ◌^◌, ◌≤◌, ◌≡◌, ◌≢◌, ◌⊎◌, inl, inr, refl, sym, ap, ◌∙◌, Option, some,
  List, [], ◌∷◌, map, arith, length, get_elem?-set_ne, set, All, some_cancel, ℕ_discrete,
}
use mathlib.Core.Path.{subst}
use dse_modelc.Word.{IsBytes}
use dse_modelc.Pdu.{Row}
use dse_modelc.Pdu.Pack.{pack_signal}
use dse_modelc.Pdu.Pack.Signal.{
  pack_signal-splice, unpack_signal-pack_signal, unpack_signal-pack_signal_other,
}
use dse_modelc.Pdu.Matrix.{payload_at, pack_row, pack_rows, unpack_row, unpack_rows}

pub payload_at-set_self :
    (ps : List (Option (List ℕ))) (i : ℕ) (p q : List ℕ)
    → payload_at ps i ≡ some p
    → payload_at (set ps i (some q)) i ≡ some q
unfolding payload_at
payload_at-set_self [] i p q e = cc
payload_at-set_self (x ∷ ps) zero p q e = refl
payload_at-set_self (x ∷ ps) (suc i) p q e = payload_at-set_self ps i p q e

pub payload_at-set_ne :
    (ps : List (Option (List ℕ))) (i j : ℕ) (q : List ℕ)
    → i ≢ j
    → payload_at (set ps i (some q)) j ≡ payload_at ps j
unfolding payload_at
payload_at-set_ne ps i j q ne = rw (get_elem?-set_ne ps (some q) ne)

module _ {D : Type 0} where
  -- The signal's payload is allocated and holds its bits, at most 64 of them.
  abbrev pub Fits : List (Option (List ℕ)) → Row D → Type 0
  Fits ps r =
      (p : List ℕ) × (payload_at ps r.pdu_idx ≡ some p)
      × IsBytes p
      × (r.start_bit + r.length_bits ≤ 8 * length p)
      × (r.length_bits ≤ 64)

  -- Two signals share no bit.
  abbrev pub Apart : Row D → Row D → Type 0
  Apart r s =
      (r.pdu_idx ≢ s.pdu_idx)
      ⊎ (s.start_bit + s.length_bits ≤ r.start_bit)
      ⊎ (r.start_bit + r.length_bits ≤ s.start_bit)

  -- What packing a row does to the payloads.
  record Packed (r : Row D) (ps qs : List (Option (List ℕ))) : Type 0 where
    run : pack_row r ps ≡ some qs
    reads : unpack_row qs r ≡ some (r.raw % 2 ^ r.length_bits)
    fits : (s : Row D) → Fits ps s → Fits qs s
    others : (s : Row D) → Fits ps s → Apart r s → unpack_row qs s ≡ unpack_row ps s

  same_payload :
      (r s : Row D) (ps : List (Option (List ℕ))) (p p' : List ℕ)
      → r.pdu_idx ≡ s.pdu_idx
      → payload_at ps r.pdu_idx ≡ some p
      → payload_at ps s.pdu_idx ≡ some p'
      → p ≡ p'
  same_payload r s ps p p' same here here' =
      some_cancel (sym here ∙ ap (payload_at ps) same ∙ here')

  bits-Apart :
      (r s : Row D)
      → r.pdu_idx ≡ s.pdu_idx
      → Apart r s
      → (s.start_bit + s.length_bits ≤ r.start_bit) ⊎ (r.start_bit + r.length_bits ≤ s.start_bit)
  bits-Apart r s same (inl other) = absurd (other same)
  bits-Apart r s same (inr bits) = bits

  Fits-after :
      (r s : Row D) (ps : List (Option (List ℕ))) (p q : List ℕ)
      → payload_at ps r.pdu_idx ≡ some p
      → IsBytes q
      → length q ≡ length p
      → Fits ps s
      → Fits (set ps r.pdu_idx (some q)) s
  Fits-after r s ps p q here wq lq (p', here', w', room', word') =
      elim (ℕ_discrete r.pdu_idx s.pdu_idx) [
        | yes same ↦
            let size : p ≡ p' = same_payload r s ps p p' same here here' in
            (
              q,
              subst (λ (i : ℕ). payload_at (set ps r.pdu_idx (some q)) i ≡ some q) same
                  (payload_at-set_self ps r.pdu_idx p q here),
              wq,
              omega (arith, lq, ap length size),
              word',
            )
        | no other ↦
            (p', payload_at-set_ne ps r.pdu_idx s.pdu_idx q other ∙ here', w', room', word')
      ]

  reads_after :
      (r s : Row D) (ps : List (Option (List ℕ))) (p q : List ℕ)
      → payload_at ps r.pdu_idx ≡ some p
      → IsBytes p
      → pack_signal r.start_bit r.length_bits r.raw p ≡ some q
      → r.start_bit + r.length_bits ≤ 8 * length p
      → Fits ps s
      → Apart r s
      → unpack_row (set ps r.pdu_idx (some q)) s ≡ unpack_row ps s
  unfolding unpack_row
  reads_after r s ps p q here w run room (p', here', w', room', word') apart =
      elim (ℕ_discrete r.pdu_idx s.pdu_idx) [
        | yes same ↦
            let size : p ≡ p' = same_payload r s ps p p' same here here' in
            let there : payload_at (set ps r.pdu_idx (some q)) s.pdu_idx ≡ some q =
              subst (λ (i : ℕ). payload_at (set ps r.pdu_idx (some q)) i ≡ some q) same
                (payload_at-set_self ps r.pdu_idx p q here) in
            let kept =
              unpack_signal-pack_signal_other r.start_bit r.length_bits r.raw s.start_bit
                s.length_bits p w room (omega (arith, ap length size)) word'
                (bits-Apart r s same apart) in
            rw (there, here', ← size) (rw run at kept)
        | no other ↦ rw (payload_at-set_ne ps r.pdu_idx s.pdu_idx q other)
      ]

  pack_row-Packed :
      (r : Row D) (ps : List (Option (List ℕ)))
      → Fits ps r
      → (qs : List (Option (List ℕ))) × Packed r ps qs
  unfolding pack_row unpack_row
  pack_row-Packed r ps (p, here, w, room, word) =
      let (q, run, wq, lq, _) = pack_signal-splice r.start_bit r.length_bits r.raw p w room in
      let there = payload_at-set_self ps r.pdu_idx p q here in
      (
        set ps r.pdu_idx (some q),
        record {
          run = rw (here, run);
          reads =
              rw there (
                rw run at
                  (unpack_signal-pack_signal r.start_bit r.length_bits r.raw p w room word));
          fits = λ s f. Fits-after r s ps p q here wq lq f;
          others = λ s f apart. reads_after r s ps p q here w run room f apart;
        },
      )

  -- The row with its raw value cut to the signal's width.
  abbrev pub truncate : Row D → Row D
  truncate r = record r { raw = r.raw % 2 ^ r.length_bits }

  -- No two signals share a bit.
  abbrev pub Disjoint : List (Row D) → Type 0
  Disjoint [] = Unit
  Disjoint (r ∷ rs) = All (λ s. Apart s r) rs × Disjoint rs

  All-Fits :
      (rs : List (Row D)) (r : Row D) (ps qs : List (Option (List ℕ)))
      → Packed r ps qs
      → All (Fits ps) rs
      → All (Fits qs) rs
  All-Fits [] r ps qs k f = tt
  All-Fits (s ∷ rs) r ps qs k f = (k.fits s f.0, All-Fits rs r ps qs k f.1)

  -- Packing the rest leaves a signal that is apart from all of it as it was.
  pack_rows-others :
      (rs : List (Row D)) (s : Row D) (ps : List (Option (List ℕ)))
      → All (Fits ps) rs
      → Fits ps s
      → All (λ r. Apart r s) rs
      → (qs : List (Option (List ℕ))) × (pack_rows rs ps ≡ some qs)
        × (unpack_row qs s ≡ unpack_row ps s)
  unfolding pack_rows
  pack_rows-others [] s ps f g apart = (ps, refl, refl)
  pack_rows-others (r ∷ rs) s ps f g apart =
      let (qs, k) = pack_row-Packed r ps f.0 in
      let (ts, run, same) =
        pack_rows-others rs s qs (All-Fits rs r ps qs k f.1) (k.fits s g) apart.1 in
      (ts, rw k.run run, same ∙ k.others s g apart.0)

  -- Tx packs all signals of a range into their payloads and Rx unpacks them to the raw values that
  -- went in, each cut to its signal's width, if the signals lie within their payloads, have at
  -- most 64 bits and share no bit.
  pub unpack_rows-pack_rows :
      (rs : List (Row D)) (ps : List (Option (List ℕ)))
      → All (Fits ps) rs
      → Disjoint rs
      → (qs : List (Option (List ℕ))) × (pack_rows rs ps ≡ some qs)
        × (unpack_rows rs qs ≡ some (map truncate rs))
  unfolding pack_rows unpack_rows
  unpack_rows-pack_rows [] ps f apart = (ps, refl, refl)
  unpack_rows-pack_rows (r ∷ rs) ps f apart =
      let (qs, k) = pack_row-Packed r ps f.0 in
      let fits = All-Fits rs r ps qs k f.1 in
      let (ts, run, back) = unpack_rows-pack_rows rs qs fits apart.1 in
      let (ts', run', same) = pack_rows-others rs r qs fits (k.fits r f.0) apart.0 in
      let one : ts ≡ ts' = some_cancel (sym run ∙ run') in
      let first : unpack_row ts r ≡ some (r.raw % 2 ^ r.length_bits) = rw one (same ∙ k.reads) in
      (ts, rw k.run run, rw (first, back))
