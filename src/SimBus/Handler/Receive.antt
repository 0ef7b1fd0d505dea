-- ===== src/SimBus/Handler/Receive.antt =====
-- The signals that are received by uid, by the bus from a model or by a model from the bus.
use dse_modelc.Base.{
  length-map, ℕ, zero, suc, ◌≡◌, ◌≢◌, ◌⊎◌, refl, sym, ap, subst, ◌∙◌, inl, inr, true, false, some,
  List, [], ◌∷◌, map, arith, All, Bool-cases, Option-cases, none≢some, some_cancel, length,
  get_elem?, set, take, ◌==◌, if◌then◌else◌,
}
use dse_modelc.SimBus.{SignalValue, Channel}
use dse_modelc.SimBus.Index.{refresh_index, find_signal_by_uid, lookup_uid, position_by_uid}
use dse_modelc.SimBus.Index.Lookup.{
  HasUid, generate_index-IsSound, IsSound, find_signal_by_uid-IsSound, set-All,
}
use dse_modelc.SimBus.Handler.{receive_signal, receive_with, receive_all}

module _ {D V : Type 0} (assign : V → SignalValue D → SignalValue D) where
  -- What a received value does to a signal, and to all signals.
  abbrev pub told : ℕ × V → SignalValue D → SignalValue D
  told x sv = if sv.uid == x.0 then assign x.1 sv else sv

  abbrev pub told_all : List (ℕ × V) → List (SignalValue D) → List (SignalValue D)
  told_all [] svs = svs
  told_all (x ∷ xs) svs = told_all xs (map (told x) svs)

-- No two signals share a uid, unless it is 0, the uid of a signal that has none yet.
abbrev pub HasOwnUids : {D : Type 0} → List (SignalValue D) → Type 0
HasOwnUids [] = Unit
HasOwnUids (sv ∷ svs) = All (λ t. (t.uid ≢ sv.uid) ⊎ (t.uid ≡ 0)) svs × HasOwnUids svs

-- The lookup is sound, the signals have their own uids, and the index holds them all.
abbrev pub IsIndexed : {D S : Type 0} → Channel D S → Type 0
IsIndexed c = IsSound c × HasOwnUids c.signal_values × (c.count ≡ length c.signal_values)

find-count :
    {D S : Type 0} (c : Channel D S) (uid : ℕ) → (find_signal_by_uid c uid).1.count ≡ c.count
unfolding find_signal_by_uid
find-count c uid = elim (Bool-cases (uid == 0)) [
  | inl null ↦ rw (find_signal_by_uid, null)
  | inr given ↦ elim (Option-cases (lookup_uid uid c.uid2sv_lookup)) [
    | inr (i, hit) ↦ rw (find_signal_by_uid, given, hit)
    | inl miss ↦ elim (Option-cases (position_by_uid uid 0 (take c.count c.signal_values))) [
      | inl absent ↦ rw (find_signal_by_uid, given, miss, absent)
      | inr (i, found) ↦ rw (find_signal_by_uid, given, miss, found)
    ]
  ]
]

get-All :
    {A : Type 0} (P : A → Type 0) (xs : List A) (i : ℕ) (x : A)
    → All P xs
    → get_elem? xs i ≡ some x
    → P x
get-All P [] i x h e = absurd (none≢some e)
get-All P (y ∷ xs) zero x h e = subst P (some_cancel e) h.0
get-All P (y ∷ xs) (suc i) x h e = get-All P xs i x h.1 e

others_differ :
    {D : Type 0} (svs : List (SignalValue D)) (u v : ℕ)
    → u ≢ 0
    → v ≡ u
    → All (λ t. (t.uid ≢ v) ⊎ (t.uid ≡ 0)) svs
    → All (λ t. t.uid ≢ u) svs
others_differ [] u v h e k = tt
others_differ (sv ∷ svs) u v h e k = (ground (arith, k.0), others_differ svs u v h e k.1)

take-length : {A : Type 0} (xs : List A) → take (length xs) xs ≡ xs
take-length [] = refl
take-length (x ∷ xs) = ap (λ ys. x ∷ ys) (take-length xs)

module _ {D V : Type 0} (assign : V → SignalValue D → SignalValue D) where
  told_absent :
      (svs : List (SignalValue D)) (x : ℕ × V)
      → All (λ sv. sv.uid ≢ x.0) svs
      → map (told assign x) svs ≡ svs
  told_absent [] x h = refl
  told_absent (sv ∷ svs) x h =
      let other : (sv.uid == x.0) ≡ false = ground (arith, h.0) in rw (other, told_absent svs x h.1)

  set-told :
      (svs : List (SignalValue D)) (i : ℕ) (sv : SignalValue D) (x : ℕ × V)
      → x.0 ≢ 0
      → HasOwnUids svs
      → get_elem? svs i ≡ some sv
      → sv.uid ≡ x.0
      → set svs i (assign x.1 sv) ≡ map (told assign x) svs
  set-told [] i sv x given own e has = absurd (none≢some e)
  set-told (y ∷ svs) zero sv x given own e has =
      let same : y ≡ sv = some_cancel e in
      let here : (y.uid == x.0) ≡ true = ground (arith, ap (λ z. z.uid) same) in
      let rest : map (told assign x) svs ≡ svs =
        told_absent svs x (others_differ svs x.0 y.uid given (ap (λ z. z.uid) same ∙ has) own.0) in
      rw (here, rest, same)
  set-told (y ∷ svs) (suc i) sv x given own e has =
      let differ = get-All (λ t. (t.uid ≢ y.uid) ⊎ (t.uid ≡ 0)) svs i sv own.0 e in
      let other : (y.uid == x.0) ≡ false = ground arith in
      rw (other, set-told svs i sv x given own.1 e has)

module _ {D : Type 0} (f : SignalValue D → SignalValue D)
    (same : (sv : SignalValue D) → (f sv).uid ≡ sv.uid) where
  map-others :
      (svs : List (SignalValue D)) (u : ℕ)
      → All (λ t. (t.uid ≢ u) ⊎ (t.uid ≡ 0)) svs
      → All (λ t. (t.uid ≢ u) ⊎ (t.uid ≡ 0)) (map f svs)
  map-others [] u h = tt
  map-others (sv ∷ svs) u h = (rw (same sv) (h.0), map-others svs u h.1)

  map-HasOwnUids : (svs : List (SignalValue D)) → HasOwnUids svs → HasOwnUids (map f svs)
  map-HasOwnUids [] h = tt
  map-HasOwnUids (sv ∷ svs) h = (rw (same sv) (map-others svs sv.uid h.0), map-HasOwnUids svs h.1)

  map-HasUid : (svs : List (SignalValue D)) (u i : ℕ) → HasUid svs u i → HasUid (map f svs) u i
  map-HasUid [] u i (sv, at, has) = absurd (none≢some at)
  map-HasUid (y ∷ svs) u zero (sv, at, has) =
      (f y, refl, same y ∙ ap (λ z. z.uid) (some_cancel at) ∙ has)
  map-HasUid (y ∷ svs) u (suc i) h = map-HasUid svs u i h

  pub map-entries :
      (svs : List (SignalValue D)) (es : List (ℕ × ℕ))
      → All (λ e. HasUid svs e.0 e.1) es
      → All (λ e. HasUid (map f svs) e.0 e.1) es
  map-entries svs [] h = tt
  map-entries svs (e ∷ es) h = (map-HasUid svs e.0 e.1 h.0, map-entries svs es h.1)

  -- A change of signals that keeps their uids keeps the index.
  pub map-IsIndexed :
      {S : Type 0} (c : Channel D S)
      → IsIndexed c
      → IsIndexed (record c { signal_values = map f c.signal_values })
  map-IsIndexed c (sound, own, all) = (
    map-entries c.signal_values c.uid2sv_lookup sound,
    map-HasOwnUids c.signal_values own,
    all ∙ sym (length-map f c.signal_values),
  )

-- A channel stays indexed when its index is refreshed.
pub refresh_index-IsIndexed :
    {D S : Type 0} (c : Channel D S) → IsIndexed c → IsIndexed (refresh_index c)
refresh_index-IsIndexed c (sound, own, all) = elim (Bool-cases c.names) [
  | inl e ↦ rw e (sound, own, all)
  | inr e ↦ rw e (generate_index-IsSound c, own, refl)
]

module _ {D V : Type 0} (assign : V → SignalValue D → SignalValue D)
    (keeps : (v : V) (sv : SignalValue D) → (assign v sv).uid ≡ sv.uid) where
  -- A value for a uid that is not 0, on a channel with a sound lookup, is received: either no signal
  -- of the index has the uid, and no signal changes, or one that has it is assigned the value,
  -- and nothing else of the signals changes. The lookup stays sound.
  pub receive_with-IsSound :
      {S : Type 0} (c : Channel D S) (uid : ℕ) (value : V)
      → IsSound c
      → uid ≢ 0
      → (c' : Channel D S) × (receive_with assign c (uid, value) ≡ some c')
        × IsSound c'
        × (c'.count ≡ c.count)
        × ((All (λ sv. sv.uid ≢ uid) (take c.count c.signal_values)
              × (c'.signal_values ≡ c.signal_values))
            ⊎ ((i : ℕ) × (sv : SignalValue D) × (get_elem? c.signal_values i ≡ some sv)
                × (sv.uid ≡ uid)
                × (c'.signal_values ≡ set c.signal_values i (assign value sv))))
  unfolding receive_with
  receive_with-IsSound c uid value sound given =
      let (sound', same, found) = find_signal_by_uid-IsSound c uid sound in
      elim found [
        | inl (missing, absent) ↦
            let skip : (uid == 0) ≡ false = ground arith in
            (
              (find_signal_by_uid c uid).1,
              rw (receive_with, missing, skip),
              sound',
              find-count c uid,
              inl (elim absent [ inl null ↦ absurd (given null) | inr a ↦ a ], same),
            )
        | inr (i, hit, (sv, at, has)) ↦
            let at' : get_elem? (find_signal_by_uid c uid).1.signal_values i ≡ some sv =
              ap (λ svs. get_elem? svs i) same ∙ at in
            let new = assign value sv in
            (
              record ((find_signal_by_uid c uid).1) {
                signal_values = set (find_signal_by_uid c uid).1.signal_values i new;
              },
              rw (receive_with, hit, at'),
              set-All (find_signal_by_uid c uid).1.signal_values i sv new
                  (find_signal_by_uid c uid).1.uid2sv_lookup at' (keeps value sv) sound',
              find-count c uid,
              inr (i, sv, at, has, ap (λ svs. set svs i new) same),
            )
      ]

  pub told-uid : (x : ℕ × V) (sv : SignalValue D) → (told assign x sv).uid ≡ sv.uid
  told-uid x sv = elim (Bool-cases (sv.uid == x.0)) [ inl e ↦ rw e (keeps x.1 sv) | inr e ↦ rw e ]

  receive_with-told :
      {S : Type 0} (c : Channel D S) (x : ℕ × V)
      → IsIndexed c
      → x.0 ≢ 0
      → (c' : Channel D S) × (receive_with assign c x ≡ some c')
        × IsIndexed c'
        × (c'.signal_values ≡ map (told assign x) c.signal_values)
  receive_with-told c x (sound, own, all) given =
      let (c', e, sound', count, how) = receive_with-IsSound c x.0 x.1 sound given in
      let now : c'.signal_values ≡ map (told assign x) c.signal_values = elim how [
        | inl (absent, same) ↦
            let absent' : All (λ sv. sv.uid ≢ x.0) c.signal_values =
              subst (λ svs. All (λ sv. sv.uid ≢ x.0) svs)
                (ap (λ n. take n c.signal_values) all ∙ take-length c.signal_values) absent in
            same ∙ sym (told_absent assign c.signal_values x absent')
        | inr (i, sv, at, has, same) ↦
            same ∙ set-told assign c.signal_values i sv x given own at has
      ] in
      (
        c',
        e,
        (
          sound',
          rw now (map-HasOwnUids (told assign x) (told-uid x) c.signal_values own),
          rw (count, now, length-map (told assign x) c.signal_values) all,
        ),
        now,
      )

  -- On a channel whose lookup is sound, whose signals have their own uids and whose index holds
  -- them all, a vector of values for uids that are not 0 is received, and amounts to
  -- assigning each value to the signal of its uid, in order.
  pub receive_all-told :
      {S : Type 0} (c : Channel D S) (xs : List (ℕ × V))
      → IsIndexed c
      → All (λ x. x.0 ≢ 0) xs
      → (c' : Channel D S) × (receive_all (receive_with assign) c xs ≡ some c')
        × IsIndexed c'
        × (c'.signal_values ≡ told_all assign xs c.signal_values)
  unfolding receive_all
  receive_all-told c [] well given = (c, refl, well, refl)
  receive_all-told c (x ∷ xs) well given =
      let (c1, e1, well1, now1) = receive_with-told c x well given.0 in
      let (c2, e2, well2, now2) = receive_all-told c1 xs well1 given.1 in
      (c2, rw (receive_all, e1) e2, well2, now2 ∙ ap (told_all assign xs) now1)

-- A value for a uid that is not 0, on a channel with a sound lookup, is received: either no signal of
-- the index has the uid, and no signal changes, or the final value of one that has it is the
-- value, and nothing else of the signals changes. The lookup stays sound.
pub receive_signal-IsSound :
    {D S : Type 0} (c : Channel D S) (uid : ℕ) (value : D)
    → IsSound c
    → uid ≢ 0
    → (c' : Channel D S) × (receive_signal c (uid, value) ≡ some c')
      × IsSound c'
      × ((All (λ sv. sv.uid ≢ uid) (take c.count c.signal_values)
            × (c'.signal_values ≡ c.signal_values))
          ⊎ ((i : ℕ) × (sv : SignalValue D) × (get_elem? c.signal_values i ≡ some sv)
              × (sv.uid ≡ uid)
              × (c'.signal_values ≡ set c.signal_values i (record sv { final_val = value }))))
unfolding receive_signal
receive_signal-IsSound c uid value sound given =
    let (c', e, sound', count, how) =
      receive_with-IsSound (λ v sv. record sv { final_val = v }) (λ v sv. refl) c uid value sound
        given in
    (c', e, sound', how)
