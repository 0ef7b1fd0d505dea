-- ===== src/Controller/Transform/Idle.antt =====
-- A model that leaves its vectors as they are.
use dse_modelc.Base.{
  ℕ, zero, suc, ◌<◌, ◌≤◌, length, ◌≡◌, ◌⊎◌, refl, sym, ap, subst, ◌∙◌, inl, inr, true, Option, none,
  some, List, [], ◌∷◌, arith, All, Bool-cases, Option-cases, some_cancel, none≢some, bind_some,
  get_elem?, set, ◌==◌,
}
use dse_modelc.Double.{Double}
use dse_modelc.SimBus.{SignalValue}
use dse_modelc.Controller.{SignalTransform}
use dse_modelc.Controller.Transform.{
  LuaCalls, call_lua_transform, linear_to_model, linear_from_model, transform_to_model,
  transform_from_model, controller_transform_to_model, controller_transform_from_model,
}

-- The signal at a position has its value as its final value.
abbrev pub IsIdle : {D : Type 0} → List (SignalValue D) → ℕ → Type 0
IsIdle {D = D} svs i = (sv : SignalValue D) × (get_elem? svs i ≡ some sv) × (sv.final_val ≡ sv.val)

-- The value of the signal at a position.
abbrev val_at : {D : Type 0} → List (SignalValue D) → ℕ → Option D
val_at svs i = elim (get_elem? svs i) [ none ↦ none | some sv ↦ some sv.val ]

val_at-set :
    {D : Type 0} (svs : List (SignalValue D)) (i j : ℕ) (sv : SignalValue D) (v : D)
    → get_elem? svs i ≡ some sv
    → val_at (set svs i (record sv { final_val = v })) j ≡ val_at svs j
val_at-set [] i j sv v e = refl
val_at-set (x ∷ svs) zero zero sv v e = ap (λ z. some z.val) (sym (some_cancel e))
val_at-set (x ∷ svs) zero (suc j) sv v e = refl
val_at-set (x ∷ svs) (suc i) zero sv v e = refl
val_at-set (x ∷ svs) (suc i) (suc j) sv v e = val_at-set svs i j sv v e

set-IsIdle :
    {D : Type 0} (svs : List (SignalValue D)) (i j : ℕ) (sv : SignalValue D)
    → get_elem? svs i ≡ some sv
    → (i ≡ j) ⊎ IsIdle svs j
    → IsIdle (set svs i (record sv { final_val = sv.val })) j
set-IsIdle [] i j sv e h = absurd (none≢some e)
set-IsIdle (x ∷ svs) zero zero sv e h = (record sv { final_val = sv.val }, refl, refl)
set-IsIdle (x ∷ svs) zero (suc j) sv e (inl same) = absurd (omega arith)
set-IsIdle (x ∷ svs) zero (suc j) sv e (inr h) = h
set-IsIdle (x ∷ svs) (suc i) zero sv e (inl same) = absurd (omega arith)
set-IsIdle (x ∷ svs) (suc i) zero sv e (inr h) = h
set-IsIdle (x ∷ svs) (suc i) (suc j) sv e (inl same) = set-IsIdle svs i j sv e (inl (omega arith))
set-IsIdle (x ∷ svs) (suc i) (suc j) sv e (inr h) = set-IsIdle svs i j sv e (inr h)

signal_at :
    {D : Type 0} (svs : List (SignalValue D)) (i : ℕ) (v : D)
    → val_at svs i ≡ some v
    → (sv : SignalValue D) × (get_elem? svs i ≡ some sv) × (sv.val ≡ v)
signal_at svs i v e = elim (Option-cases (get_elem? svs i)) [
  | inl absent ↦ absurd (none≢some (rw (val_at, absent) at e))
  | inr (sv, hit) ↦ (sv, hit, some_cancel (rw (val_at, hit) at e))
]

get_elem?-inside :
    {A : Type 0} (xs : List A) (i : ℕ) → i < length xs → (x : A) × (get_elem? xs i ≡ some x)
get_elem?-inside [] i h = absurd (omega arith)
get_elem?-inside (x ∷ xs) zero h = (x, refl)
get_elem?-inside (x ∷ xs) (suc i) h = get_elem?-inside xs i (omega arith)

module _ {D L : Type 0} (double : Double D) (lua : LuaCalls D L) where
  -- The transform has no scripts, and its factor is 0 or the division undoes it.
  abbrev pub IsExact : SignalTransform D → Type 0
  IsExact t =
      (t.model_ref ≡ 0)
      × (t.vector_ref ≡ 0)
      × ((double.eq t.factor double.zero ≡ true)
          ⊎ ((v : D)
              → double.div (double.sub (double.add (double.mul v t.factor) t.offset) t.offset)
                  t.factor
                ≡ v))

  there_and_back :
      (t : SignalTransform D) (v : D)
      → IsExact t
      → linear_from_model double t (linear_to_model double t v) ≡ v
  unfolding linear_from_model linear_to_model
  there_and_back t v (m, n, exact) = elim (Bool-cases (double.eq t.factor double.zero)) [
    | inl off ↦ rw (linear_from_model, linear_to_model, off)
    | inr on ↦ elim exact [
      | inl off ↦ absurd (ground (arith, off, on))
      | inr undo ↦ rw (linear_from_model, linear_to_model, on) (undo v)
    ]
  ]

  no_script :
      (l : L) (func_ref : ℕ) (v : D)
      → func_ref ≡ 0
      → call_lua_transform double lua l func_ref v ≡ (v, l)
  unfolding call_lua_transform
  no_script l func_ref v e =
      let off : (func_ref == 0) ≡ true = ground arith in rw (call_lua_transform, off)

  -- The vector of a model that leaves it goes back to signals with the same values.
  back :
      (svs0 svs : List (SignalValue D)) (is : List ℕ) (ts : List (SignalTransform D))
      (values : List D) (l l1 l2 : L)
      → All IsExact ts
      → ((j : ℕ) → val_at svs j ≡ val_at svs0 j)
      → transform_to_model double lua l svs0 is ts ≡ some (values, l1)
      → (svs' : List (SignalValue D)) × (transform_from_model double lua l2 svs is values ts
          ≡ some (svs', l2))
        × All (IsIdle svs') is
        × ((j : ℕ) → IsIdle svs j → IsIdle svs' j)
  unfolding transform_to_model transform_from_model
  back svs0 svs [] ts values l l1 l2 exact same e = (svs, refl, tt, λ j h. h)
  back svs0 svs (i ∷ is) [] values l l1 l2 exact same e = absurd (none≢some e)
  back svs0 svs (i ∷ is) (t ∷ ts) values l l1 l2 exact same e =
      let (sv0, at0, e0) = bind_some (get_elem? svs0 i) _ e in
      let x = linear_to_model double t sv0.val in
      let quiet = no_script l t.model_ref x exact.0.0 in
      let r = call_lua_transform double lua l t.model_ref x in
      let (tail, e1, e2) = bind_some (transform_to_model double lua r.1 svs0 is ts) _ e0 in
      let vector : x ∷ tail.0 ≡ values =
        ap (λ y. y.0 ∷ tail.0) (sym quiet) ∙ ap (λ y. y.0) (some_cancel e2) in
      let at_val : val_at svs i ≡ some sv0.val = same i ∙ rw (val_at, at0) in
      let (sv, at, value) = signal_at svs i sv0.val at_val in
      let new = set svs i (record sv { final_val = sv.val }) in
      let (svs', e', idle, kept) =
        back svs0 new is ts tail.0 r.1 tail.1 l2 exact.1
          (λ j. val_at-set svs i j sv sv.val at ∙ same j) e1 in
      let returned : call_lua_transform double lua l2 t.vector_ref (linear_from_model double t x)
          ≡ (sv.val, l2) =
        no_script l2 t.vector_ref (linear_from_model double t x) exact.0.1
        ∙ ap (λ y. (y, l2)) (there_and_back t sv0.val exact.0 ∙ sym value) in
      (
        svs',
        subst (λ vs. transform_from_model double lua l2 svs (i ∷ is) vs (t ∷ ts) ≡ some (svs', l2))
            vector (rw (transform_from_model, at, returned) e'),
        (kept i (set-IsIdle svs i i sv at (inl refl)), idle),
        λ j h. kept j (set-IsIdle svs i j sv at (inr h)),
      )

  there :
      (svs : List (SignalValue D)) (is : List ℕ) (ts : List (SignalTransform D)) (l : L)
      → All (λ i. i < length svs) is
      → length is ≤ length ts
      → (values : List D) × (l1 : L) × (transform_to_model double lua l svs is ts
          ≡ some (values, l1))
  unfolding transform_to_model
  there svs [] ts l inside enough = ([], l, refl)
  there svs (i ∷ is) [] l inside enough = absurd (omega arith)
  there svs (i ∷ is) (t ∷ ts) l inside enough =
      let (sv, at) = get_elem?-inside svs i inside.0 in
      let r = call_lua_transform double lua l t.model_ref (linear_to_model double t sv.val) in
      let (values, l1, e) = there svs is ts r.1 inside.1 (omega arith) in
      (r.0 ∷ values, l1, rw (transform_to_model, at, e))

  -- A scalar channel whose positions are signals of the adapter and which has a transform for each,
  -- without scripts, and with a factor that is 0 or that the division undoes: the vector of the
  -- model is filled, and when the model leaves it as it is, it goes back to the adapter so that
  -- each signal's final value is its value.
  pub to_model-IsIdle :
      (svs : List (SignalValue D)) (is : List ℕ) (ts : List (SignalTransform D)) (l : L)
      → All (λ i. i < length svs) is
      → length is ≤ length ts
      → All IsExact ts
      → (values : List D) × (l1 : L) × (svs' : List (SignalValue D))
        × (controller_transform_to_model double lua l (some ts) svs is ≡ some (values, l1))
        × (controller_transform_from_model double lua l1 (some ts) svs is values ≡ some (svs', l1))
        × All (IsIdle svs') is
  unfolding controller_transform_to_model controller_transform_from_model
  to_model-IsIdle svs is ts l inside enough exact =
      let (values, l1, e) = there svs is ts l inside enough in
      let (svs', e', idle, kept) = back svs svs is ts values l l1 l1 exact (λ j. refl) e in
      (values, l1, svs', e, e', idle)
