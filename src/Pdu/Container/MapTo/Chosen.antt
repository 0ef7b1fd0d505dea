-- ===== src/Pdu/Container/MapTo/Chosen.antt =====
-- Which I-PDUs the loop puts into a container.
use dse_modelc.Base.{
  ℕ, ◌+◌, ◌-◌, ◌≡◌, ◌≢◌, refl, sym, ap, subst, ◌∙◌, inl, inr, Bool, ◌&&◌, some, List, [], ◌∷◌, ◌++◌,
  All, Bool-cases, length, append_assoc, leb,
}
use dse_modelc.Pdu.{HeaderFormat, MPduItem}
use dse_modelc.Pdu.Script.{Scripts}
use dse_modelc.Pdu.Container.{header_length}
use dse_modelc.Pdu.Container.Header.{Carries}
use dse_modelc.Pdu.Container.MapFrom.Frames.{Frame}
use dse_modelc.Pdu.Container.MapTo.{Mapping, map_items}
use dse_modelc.Pdu.Container.MapTo.Fill.{Filled, Offers, OffersAll, AreDistinct, chosen}
use dse_modelc.Pdu.Container.MapTo.Taken.{append_nil, IsTaken, map_one-IsTaken}

module _ {D L : Type 0} (scripts : Scripts D L) (format : HeaderFormat) (payload_len : ℕ) where
  keep-OffersAll :
      (i : MPduItem) (is : List MPduItem) (xs : List (Bool × Frame)) (m m' : Mapping D L)
      → ((j : MPduItem) (y : Bool × Frame)
          → i.pdu ≢ j.pdu
          → Offers scripts format payload_len m j y
          → Offers scripts format payload_len m' j y)
      → All (λ j. i.pdu ≢ j.pdu) is
      → OffersAll scripts format payload_len m is xs
      → OffersAll scripts format payload_len m' is xs
  keep-OffersAll i [] [] m m' keep others h = tt
  keep-OffersAll i [] (x ∷ xs) m m' keep others h = h
  keep-OffersAll i (j ∷ is) [] m m' keep others h = h
  keep-OffersAll i (j ∷ is) (x ∷ xs) m m' keep others h =
      (keep j x others.0 h.0, keep-OffersAll i is xs m m' keep others.1 h.1)

  -- The loop ends with the chosen frames in the container, in order.
  pub map_items-chosen :
      (is : List MPduItem) (xs : List (Bool × Frame)) (fs : List Frame) (n : ℕ) (m : Mapping D L)
      → OffersAll scripts format payload_len m is xs
      → AreDistinct scripts format payload_len is
      → Filled scripts format payload_len m fs n
      → (m' : Mapping D L) × (n' : ℕ) × (map_items scripts format payload_len is m ≡ some m')
        × Filled scripts format payload_len m' (fs ++ chosen scripts format payload_len n xs) n'
  unfolding map_items IsTaken
  map_items-chosen [] [] fs n m offers distinct filled = (
    m,
    n,
    refl,
    subst (λ gs. Filled scripts format payload_len m gs n) (sym (append_nil fs)) filled,
  )
  map_items-chosen [] (x ∷ xs) fs n m offers distinct filled = absurd (offers tt)
  map_items-chosen (i ∷ is) [] fs n m offers distinct filled = absurd (offers tt)
  map_items-chosen (i ∷ is) (x ∷ xs) fs n m offers distinct filled =
      let (m1, gs, n1, one, filled1, now, keep) =
        map_one-IsTaken scripts format payload_len i x fs n m offers.0 filled in
      let (m2, n2, rest, filled2) =
        map_items-chosen is xs (fs ++ gs) n1 m1
          (keep-OffersAll i is xs m m1 keep distinct.0 offers.1) distinct.1 filled1 in
      let frames : (fs ++ gs) ++ chosen scripts format payload_len n1 xs
          ≡ fs ++ chosen scripts format payload_len n (x ∷ xs) =
        append_assoc fs gs (chosen scripts format payload_len n1 xs)
        ∙ ap (λ ys. fs ++ ys) (sym (now xs)) in
      (
        m2,
        n2,
        rw (map_items, one) rest,
        subst (λ ys. Filled scripts format payload_len m2 ys n2) frames filled2,
      )

  pub chosen-Carries :
      (is : List MPduItem) (xs : List (Bool × Frame)) (room : ℕ) (m : Mapping D L)
      → OffersAll scripts format payload_len m is xs
      → All (λ f. Carries format f.0 (length f.1)) (chosen scripts format payload_len room xs)
  chosen-Carries [] [] room m h = tt
  chosen-Carries [] (x ∷ xs) room m h = absurd (h tt)
  chosen-Carries (i ∷ is) [] room m h = absurd (h tt)
  chosen-Carries (i ∷ is) (x ∷ xs) room m ((o, at, needs, tx, here, size, id, carries), h) =
      elim (Bool-cases (x.0 && leb (header_length format + length x.1.1) room)) [
        | inl taken_now ↦ rw taken_now (
          subst (λ k. Carries format x.1.0 k) (sym size)
              (subst (λ k. Carries format k o.item.length) id carries),
          chosen-Carries is xs (room - (header_length format + length x.1.1)) m h,
        )
        | inr not_now ↦ rw not_now (chosen-Carries is xs room m h)
      ]
