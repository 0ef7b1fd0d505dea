-- ===== src/SimBus/Barrier.antt =====
-- When the bus takes a step, and what the models are told then.
use dse_modelc.Base.{
  ℕ, suc, ◌≡◌, ◌≢◌, ◌↔◌, ◌⊎◌, refl, ◌∙◌, inl, inr, Bool, true, false, not, ◌&&◌, List, [], ◌∷◌,
  arith, All, Bool-cases, ◌==◌, if◌then◌else◌,
}
use dse_modelc.Double.{Double}
use dse_modelc.SimBus.{UidSet, SignalValue, Channel}
use dse_modelc.SimBus.States.{models_ready, model_at_ready}
use dse_modelc.SimBus.Handler.{changed_signals}

-- Whether a uid is in a list, and how many different ones there are.
abbrev pub has_uid : ℕ → List ℕ → Bool
has_uid u [] = false
has_uid u (v ∷ vs) = if v == u then true else has_uid u vs

abbrev pub distinct : List ℕ → ℕ
distinct [] = 0
distinct (u ∷ us) = if has_uid u us then distinct us else suc (distinct us)

module _ {D S : Type 0} (sets : UidSet S) where
  -- The models of the list report ready on the channel, the last one first.
  abbrev pub report_ready : Channel D S → List ℕ → Channel D S
  report_ready c [] = c
  report_ready c (u ∷ us) = model_at_ready sets (report_ready c us) u

  ready_has :
      (c : Channel D S) (us : List ℕ) (u : ℕ)
      → sets.has (report_ready c us).model_ready_set u
        ≡ (if has_uid u us then true else sets.has c.model_ready_set u)
  ready_has c [] u = refl
  ready_has c (v ∷ us) u =
      sets.has_add (report_ready c us).model_ready_set v u ∙ ground (arith, ready_has c us u)

  ready_size :
      (c : Channel D S) (us : List ℕ)
      → ((u : ℕ) → sets.has c.model_ready_set u ≡ false)
      → sets.size c.model_ready_set ≡ 0
      → sets.size (report_ready c us).model_ready_set ≡ distinct us
  ready_size c [] none_ready empty = empty
  ready_size c (u ∷ us) none_ready empty =
      sets.size_add (report_ready c us).model_ready_set u
      ∙ ground (arith, ready_has c us u, none_ready u, ready_size c us none_ready empty)

  expected_kept :
      (c : Channel D S) (us : List ℕ)
      → (report_ready c us).expected_model_count ≡ c.expected_model_count
  expected_kept c [] = refl
  expected_kept c (u ∷ us) = expected_kept c us

  -- After the start of a step, whatever models report ready on a channel, in any order and as often
  -- as they like: the bus waits on that channel until as many different models have reported as it
  -- expects.
  pub models_ready-distinct :
      (c : Channel D S) (us : List ℕ)
      → (models_ready sets
            (report_ready (record c { model_ready_set = sets.clear c.model_ready_set }) us ∷ [])
          ≡ true)
        ↔ (c.expected_model_count ≡ distinct us)
  unfolding models_ready
  models_ready-distinct c us =
      let start = record c { model_ready_set = sets.clear c.model_ready_set } in
      let size =
        ready_size start us (sets.has_clear c.model_ready_set)
          (sets.size_clear c.model_ready_set) in
      let kept = expected_kept start us in (λ e. ground arith, λ e. ground arith)

module _ {D : Type 0} (double : Double D) where
  -- What a model that holds values by uid holds after an update.
  abbrev pub update : List (ℕ × D) → (ℕ → D) → ℕ → D
  update [] view u = view u
  update (x ∷ xs) view u = if x.0 == u then x.1 else update xs view u

  -- Each uid other than 0 belongs to one signal.
  abbrev pub HasUniqueUids : List (SignalValue D) → Type 0
  HasUniqueUids [] = Unit
  HasUniqueUids (sv ∷ svs) = All (λ t. (t.uid ≡ 0) ⊎ (t.uid ≢ sv.uid)) svs × HasUniqueUids svs

  -- What a model should hold of a signal after the step.
  abbrev pub IsTold : (ℕ → D) → (ℕ → D) → SignalValue D → Type 0
  IsTold view view' sv =
      (sv.uid ≡ 0)
      ⊎ (view' sv.uid ≡ (if double.eq sv.val sv.final_val then view sv.uid else sv.final_val))

  -- No signal of uid 0 is told, and only uids of the list are.
  update_kept :
      (svs : List (SignalValue D)) (view : ℕ → D) (u : ℕ)
      → All (λ t. (t.uid ≡ 0) ⊎ (t.uid ≢ u)) svs
      → update (changed_signals double svs) view u ≡ view u
  unfolding changed_signals
  update_kept [] view u h = refl
  update_kept (sv ∷ svs) view u h =
      elim (Bool-cases (not (double.eq sv.val sv.final_val) && not (sv.uid == 0))) [
        | inl e ↦
            let other : (sv.uid == u) ≡ false = ground (arith, h.0) in
            rw (changed_signals, e, other) (update_kept svs view u h.1)
        | inr e ↦ rw (changed_signals, e) (update_kept svs view u h.1)
      ]

  update_other :
      (sv : SignalValue D) (svs : List (SignalValue D)) (view : ℕ → D) (u : ℕ)
      → (u ≡ 0) ⊎ (u ≢ sv.uid)
      → update (changed_signals double (sv ∷ svs)) view u
        ≡ update (changed_signals double svs) view u
  unfolding changed_signals
  update_other sv svs view u h =
      elim (Bool-cases (not (double.eq sv.val sv.final_val) && not (sv.uid == 0))) [
        | inl e ↦
            let other : (sv.uid == u) ≡ false = ground (arith, h) in rw (changed_signals, e, other)
        | inr e ↦ rw (changed_signals, e)
      ]

  update_here :
      (sv : SignalValue D) (svs : List (SignalValue D)) (view : ℕ → D)
      → All (λ t. (t.uid ≡ 0) ⊎ (t.uid ≢ sv.uid)) svs
      → IsTold view (update (changed_signals double (sv ∷ svs)) view) sv
  unfolding changed_signals
  update_here sv svs view h = elim (Bool-cases (sv.uid == 0)) [
    | inl zero_uid ↦ inl (ground arith)
    | inr some_uid ↦ elim (Bool-cases (double.eq sv.val sv.final_val)) [
      | inl same ↦ inr (rw (changed_signals, same) (update_kept svs view sv.uid h))
      | inr changed ↦
          let here : (sv.uid == sv.uid) ≡ true = ground arith in
          inr (rw (changed_signals, changed, some_uid, here))
    ]
  ]

  others-IsTold :
      (sv : SignalValue D) (svs ts : List (SignalValue D)) (view : ℕ → D)
      → All (λ t. (t.uid ≡ 0) ⊎ (t.uid ≢ sv.uid)) ts
      → All (IsTold view (update (changed_signals double svs) view)) ts
      → All (IsTold view (update (changed_signals double (sv ∷ svs)) view)) ts
  others-IsTold sv svs [] view h told = tt
  others-IsTold sv svs (t ∷ ts) view h told = (
    elim (told.0) [ inl z ↦ inl z | inr e ↦ inr (update_other sv svs view t.uid h.0 ∙ e) ],
    others-IsTold sv svs ts view h.1 told.1,
  )

  All-IsTold :
      (svs : List (SignalValue D)) (view : ℕ → D)
      → HasUniqueUids svs
      → All (IsTold view (update (changed_signals double svs) view)) svs
  All-IsTold [] view unique = tt
  All-IsTold (sv ∷ svs) view unique = (
    update_here sv svs view unique.0,
    others-IsTold sv svs svs view unique.0 (All-IsTold svs view unique.1),
  )

  pub changed_signals-given :
      (svs : List (SignalValue D)) → All (λ x. x.0 ≢ 0) (changed_signals double svs)
  unfolding changed_signals
  changed_signals-given [] = tt
  changed_signals-given (sv ∷ svs) =
      elim (Bool-cases (not (double.eq sv.val sv.final_val) && not (sv.uid == 0))) [
        | inl e ↦
            let given : sv.uid ≢ 0 = ground arith in
            rw (changed_signals, e) (given, changed_signals-given svs)
        | inr e ↦ rw (changed_signals, e) (changed_signals-given svs)
      ]

  zero_or : (v u : ℕ) → u ≡ 0 → (v ≡ 0) ⊎ (v ≢ u)
  zero_or v u z = elim (Bool-cases (v == 0)) [
    | inl e ↦ inl (ground arith)
    | inr e ↦ inr (ground arith)
  ]

  untold :
      (svs : List (SignalValue D)) (view : ℕ → D) (u : ℕ)
      → (u ≡ 0) ⊎ All (λ sv. sv.uid ≢ u) svs
      → All (λ t. (t.uid ≡ 0) ⊎ (t.uid ≢ u)) svs
  untold [] view u h = tt
  untold (sv ∷ svs) view u (inl z) = (zero_or sv.uid u z, untold svs view u (inl z))
  untold (sv ∷ svs) view u (inr h) = (inr h.0, untold svs view u (inr h.1))

  -- If no two signals have the same uid other than 0, then the vector of changed signals holds no
  -- uid 0, and tells a model, by uid, every final value that differs from the value that the bus
  -- had. It leaves the other values of the model as they are: those of signals that did not
  -- change, that of uid 0, and those of uids that no signal has.
  pub changed_signals-update :
      (svs : List (SignalValue D)) (view : ℕ → D)
      → HasUniqueUids svs
      → All (λ x. x.0 ≢ 0) (changed_signals double svs)
        × All (IsTold view (update (changed_signals double svs) view)) svs
        × ((u : ℕ)
            → (u ≡ 0) ⊎ All (λ sv. sv.uid ≢ u) svs
            → update (changed_signals double svs) view u ≡ view u)
  changed_signals-update svs view unique = (
    changed_signals-given svs,
    All-IsTold svs view unique,
    λ u h. update_kept svs view u (untold svs view u h),
  )
