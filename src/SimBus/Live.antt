-- ===== src/SimBus/Live.antt =====
-- The bus makes progress: when the last model of a channel reports ready, the bus starts the next
-- step.
use dse_modelc.Base.{
  ℕ, ◌≡◌, ◌≢◌, ◌⊎◌, refl, subst, ◌∙◌, inl, inr, some, List, [], ◌∷◌, Bool-cases, Option-cases,
  bind_some, some_cancel, none≢some, get_elem?, take, ◌==◌,
}
use dse_modelc.Double.{Double}
use dse_modelc.SimBus.{UidSet, SignalValue, Channel, Bus}
use dse_modelc.SimBus.Index.{find_signal_by_uid, lookup_uid, position_by_uid}
use dse_modelc.SimBus.Handler.{SignalVector, Sent, receive_with, receive_all}

module _ {D S : Type 0} where
  -- What a channel keeps of the models, and its name.
  abbrev pub SameModels : Channel D S → Channel D S → Type 0
  SameModels c c' =
      (c'.name ≡ c.name)
      × (c'.model_register_set ≡ c.model_register_set)
      × (c'.model_ready_set ≡ c.model_ready_set)
      × (c'.expected_model_count ≡ c.expected_model_count)

  pub SameModels-trans : (a b c : Channel D S) → SameModels a b → SameModels b c → SameModels a c
  SameModels-trans a b c (n, r, s, e) (n', r', s', e') = (n' ∙ n, r' ∙ r, s' ∙ s, e' ∙ e)

  find-SameModels : (c : Channel D S) (uid : ℕ) → SameModels c (find_signal_by_uid c uid).1
  unfolding find_signal_by_uid
  find-SameModels c uid = elim (Bool-cases (uid == 0)) [
    | inl null ↦ rw (find_signal_by_uid, null) (refl, refl, refl, refl)
    | inr given ↦ elim (Option-cases (lookup_uid uid c.uid2sv_lookup)) [
      | inr (i, hit) ↦ rw (find_signal_by_uid, given, hit) (refl, refl, refl, refl)
      | inl miss ↦ elim (Option-cases (position_by_uid uid 0 (take c.count c.signal_values))) [
        | inl absent ↦ rw (find_signal_by_uid, given, miss, absent) (refl, refl, refl, refl)
        | inr (i, found) ↦ rw (find_signal_by_uid, given, miss, found) (refl, refl, refl, refl)
      ]
    ]
  ]

  receive_with-SameModels :
      {V : Type 0} (assign : V → SignalValue D → SignalValue D) (c c' : Channel D S) (x : ℕ × V)
      → receive_with assign c x ≡ some c'
      → SameModels c c'
  unfolding receive_with
  receive_with-SameModels assign c c' x e =
      let same = find-SameModels c x.0 in
      elim (Option-cases (find_signal_by_uid c x.0).0) [
        | inl missing ↦ elim (Bool-cases (x.0 == 0)) [
          | inl null ↦ absurd (none≢some (rw (receive_with, missing, null) at e))
          | inr given ↦
              subst (SameModels c) (some_cancel (rw (receive_with, missing, given) at e)) same
        ]
        | inr (i, hit) ↦
            let (sv, at, e') =
              bind_some (get_elem? (find_signal_by_uid c x.0).1.signal_values i) _
                (rw (receive_with, hit) at e) in
            subst (SameModels c) (some_cancel e') same
      ]

  pub receive_all-SameModels :
      {V : Type 0} (assign : V → SignalValue D → SignalValue D) (c c' : Channel D S)
      (xs : List (ℕ × V))
      → receive_all (receive_with assign) c xs ≡ some c'
      → SameModels c c'
  unfolding receive_all
  receive_all-SameModels assign c c' [] e =
      subst (SameModels c) (some_cancel e) (refl, refl, refl, refl)
  receive_all-SameModels assign c c' (x ∷ xs) e =
      let (c1, e1, e2) = bind_some (receive_with assign c x) _ e in
      SameModels-trans c c1 c' (receive_with-SameModels assign c c1 x e1)
        (receive_all-SameModels assign c1 c' xs e2)

module _ {D S : Type 0} (sets : UidSet S) where
  -- What the bus sends, if a start, and what it keeps, if it waits: the models that are ready.
  abbrev pub IsAnswered : Channel D S → ℕ → List (Sent D) × Bus D S → Type 0
  IsAnswered c uid r =
      ((c.expected_model_count ≡ sets.size (sets.add c.model_ready_set uid))
        × ((vs : List (SignalVector D)) × (from : D) × (until : D) × (r.0
              ≡ Sent.start vs from until ∷ [])))
      ⊎ ((c.expected_model_count ≢ sets.size (sets.add c.model_ready_set uid))
          × (r.0 ≡ [])
          × ((c' : Channel D S) × (r.1.channels ≡ c' ∷ [])
              × (c'.model_ready_set ≡ sets.add c.model_ready_set uid)))
