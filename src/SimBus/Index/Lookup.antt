-- ===== src/SimBus/Index/Lookup.antt =====
-- The lookup of signals by uid, which remembers what it has found.
use dse_modelc.Base.{
  ℕ, zero, suc, ◌+◌, ◌-◌, ◌≤◌, ◌≡◌, ◌≢◌, ◌⊎◌, refl, sym, ap, ◌∙◌, subst, inl, inr, none, some, List,
  [], ◌∷◌, arith, All, Bool-cases, Option-cases, some_cancel, none≢some, get_elem?, set, take, ◌==◌,
}
use dse_modelc.SimBus.{SignalValue, Channel}
use dse_modelc.SimBus.Index.{
  position_by_uid, lookup_uid, lookup_entries, generate_index, find_signal_by_uid,
}

module _ {D : Type 0} where
  -- The signal at position i has the uid.
  abbrev pub HasUid : List (SignalValue D) → ℕ → ℕ → Type 0
  HasUid svs uid i = (sv : SignalValue D) × (get_elem? svs i ≡ some sv) × (sv.uid ≡ uid)

  -- Every entry of the lookup leads to a signal of its uid.
  abbrev pub IsSound : {S : Type 0} → Channel D S → Type 0
  IsSound c = All (λ e. HasUid c.signal_values e.0 e.1) c.uid2sv_lookup

  lookup_uid-HasUid :
      (svs : List (SignalValue D)) (uid i : ℕ) (es : List (ℕ × ℕ))
      → All (λ e. HasUid svs e.0 e.1) es
      → lookup_uid uid es ≡ some i
      → HasUid svs uid i
  unfolding lookup_uid
  lookup_uid-HasUid svs uid i [] h e = absurd (none≢some e)
  lookup_uid-HasUid svs uid i (x ∷ es) h e = elim (Bool-cases (x.0 == uid)) [
    | inl hit ↦
        let (sv, at, same) = h.0 in
        (
          sv,
          ap (get_elem? svs) (sym (some_cancel (rw (lookup_uid, hit) at e))) ∙ at,
          same ∙ ground arith,
        )
    | inr miss ↦ lookup_uid-HasUid svs uid i es h.1 (rw (lookup_uid, miss) at e)
  ]

  position-HasUid :
      (uid k i : ℕ) (svs : List (SignalValue D))
      → position_by_uid uid k svs ≡ some i
      → (k ≤ i) × HasUid svs uid (i - k)
  unfolding position_by_uid
  position-HasUid uid k i [] e = absurd (none≢some e)
  position-HasUid uid k i (sv ∷ svs) e = elim (Bool-cases (sv.uid == uid)) [
    | inl hit ↦
        let here : k ≡ i = some_cancel (rw (position_by_uid, hit) at e) in
        let first : 0 ≡ i - k = omega arith in
        (omega arith, subst (HasUid (sv ∷ svs) uid) first (sv, refl, ground arith))
    | inr miss ↦
        let (le, later) = position-HasUid uid (k + 1) i svs (rw (position_by_uid, miss) at e) in
        let next : suc (i - (k + 1)) ≡ i - k = omega arith in
        (omega arith, subst (HasUid (sv ∷ svs) uid) next later)
  ]

  position-absent :
      (uid k : ℕ) (svs : List (SignalValue D))
      → position_by_uid uid k svs ≡ none
      → All (λ sv. sv.uid ≢ uid) svs
  unfolding position_by_uid
  position-absent uid k [] e = tt
  position-absent uid k (sv ∷ svs) e = elim (Bool-cases (sv.uid == uid)) [
    | inl hit ↦ absurd (none≢some (sym (rw (position_by_uid, hit) at e)))
    | inr miss ↦ (ground arith, position-absent uid (k + 1) svs (rw (position_by_uid, miss) at e))
  ]

  pub take-HasUid :
      (n i uid : ℕ) (svs : List (SignalValue D)) → HasUid (take n svs) uid i → HasUid svs uid i
  take-HasUid zero i uid svs (sv, at, same) = absurd (none≢some at)
  take-HasUid (suc n) i uid [] h = h
  take-HasUid (suc n) zero uid (x ∷ svs) h = h
  take-HasUid (suc n) (suc i) uid (x ∷ svs) h = take-HasUid n i uid svs h

-- With a sound lookup a search finds a signal of the uid, or no signal of the index has the uid; and
-- the lookup stays sound.
pub find_signal_by_uid-IsSound :
    {D S : Type 0} (c : Channel D S) (uid : ℕ)
    → IsSound c
    → let r = find_signal_by_uid c uid in
      IsSound r.1
      × (r.1.signal_values ≡ c.signal_values)
      × (((r.0 ≡ none) × ((uid ≡ 0) ⊎ All (λ sv. sv.uid ≢ uid) (take c.count c.signal_values)))
          ⊎ ((i : ℕ) × (r.0 ≡ some i) × HasUid c.signal_values uid i))
unfolding find_signal_by_uid
find_signal_by_uid-IsSound c uid sound = elim (Bool-cases (uid == 0)) [
  | inl null ↦ rw (find_signal_by_uid, null) (sound, refl, inl (refl, inl (ground arith)))
  | inr given ↦ elim (Option-cases (lookup_uid uid c.uid2sv_lookup)) [
    | inr (i, hit) ↦
        rw (find_signal_by_uid, given, hit)
          (
            sound,
            refl,
            inr (i, refl, lookup_uid-HasUid c.signal_values uid i c.uid2sv_lookup sound hit),
          )
    | inl miss ↦ elim (Option-cases (position_by_uid uid 0 (take c.count c.signal_values))) [
      | inl absent ↦
          rw (find_signal_by_uid, given, miss, absent)
            (
              sound,
              refl,
              inl (refl, inr (position-absent uid 0 (take c.count c.signal_values) absent)),
            )
      | inr (i, found) ↦
          let from_first : i - 0 ≡ i = omega arith in
          let there = take-HasUid c.count i uid c.signal_values (
            subst (HasUid (take c.count c.signal_values) uid) from_first
              (position-HasUid uid 0 i (take c.count c.signal_values) found).1) in
          rw (find_signal_by_uid, given, miss, found) ((there, sound), refl, inr (i, refl, there))
    ]
  ]
]

module _ {D : Type 0} where
  entries-HasUid :
      (i : ℕ) (svs all : List (SignalValue D)) (es : List (ℕ × ℕ))
      → ((j : ℕ) → get_elem? svs j ≡ get_elem? all (i + j))
      → All (λ e. HasUid all e.0 e.1) es
      → All (λ e. HasUid all e.0 e.1) (lookup_entries i svs es)
  unfolding lookup_entries
  entries-HasUid i [] all es same h = h
  entries-HasUid i (sv ∷ svs) all es same h =
      let here : get_elem? all i ≡ some sv = ap (get_elem? all) (omega arith) ∙ sym (same 0) in
      let rest : (j : ℕ) → get_elem? svs j ≡ get_elem? all (i + 1 + j) =
        λ j. same (suc j) ∙ ap (get_elem? all) (omega arith) in
      elim (Bool-cases (sv.uid == 0)) [
        | inl e ↦ rw (lookup_entries, e) (entries-HasUid (i + 1) svs all es rest h)
        | inr e ↦
            rw (lookup_entries, e)
              (entries-HasUid (i + 1) svs all ((sv.uid, i) ∷ es) rest ((sv, here, refl), h))
      ]

  -- The index that is generated is sound.
  pub generate_index-IsSound : {S : Type 0} (c : Channel D S) → IsSound (generate_index c)
  generate_index-IsSound c =
      entries-HasUid 0 c.signal_values c.signal_values []
        (λ j. ap (get_elem? c.signal_values) (omega arith)) tt

  -- A signal that changes, but for its uid.
  pub set-HasUid :
      (svs : List (SignalValue D)) (i : ℕ) (sv new : SignalValue D) (uid j : ℕ)
      → get_elem? svs i ≡ some sv
      → new.uid ≡ sv.uid
      → HasUid svs uid j
      → HasUid (set svs i new) uid j
  set-HasUid [] i sv new uid j e same h = absurd (none≢some e)
  set-HasUid (x ∷ svs) zero sv new uid zero e same (y, at, has) =
      (new, refl, same ∙ ap (λ z. z.uid) (sym (some_cancel e) ∙ some_cancel at) ∙ has)
  set-HasUid (x ∷ svs) zero sv new uid (suc j) e same h = h
  set-HasUid (x ∷ svs) (suc i) sv new uid zero e same h = h
  set-HasUid (x ∷ svs) (suc i) sv new uid (suc j) e same h = set-HasUid svs i sv new uid j e same h

  pub set-All :
      (svs : List (SignalValue D)) (i : ℕ) (sv new : SignalValue D) (es : List (ℕ × ℕ))
      → get_elem? svs i ≡ some sv
      → new.uid ≡ sv.uid
      → All (λ e. HasUid svs e.0 e.1) es
      → All (λ e. HasUid (set svs i new) e.0 e.1) es
  set-All svs i sv new [] e same h = tt
  set-All svs i sv new (x ∷ es) e same h =
      (set-HasUid svs i sv new x.0 x.1 e same h.0, set-All svs i sv new es e same h.1)
