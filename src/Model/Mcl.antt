-- ===== src/Model/Mcl.antt =====
-- The model compatibility library, which runs a foreign model: dse/modelc/model/mcl.c. What the
-- library's vtable does, and the marshalling through the signal map, are given. A code is an
-- int as its bit pattern.
pub mod Builtin
pub mod Blocks
use dse_modelc.Base.{
  ℕ, zero, suc, ◌+◌, ◌-◌, ◌^◌, ◌≤◌, ◌<◌, ◌≡◌, ◌≢◌, ◌⊎◌, refl, inl, inr, Bool, true, false, not,
  Option, none, some, List, [], ◌∷◌, map, arith, Bool-cases, ◌==◌, if◌then◌else◌, length,
}
use dse_modelc.Double.{Double}

-- A vector of signals; the values of a binary one.
pub record ModelVector : Type 0 where
  pub is_binary : Bool
  pub binary : List (List ℕ)

-- `state` is what the library and its model keep.
pub record Mcl (D M : Type 0) : Type 0 where
  pub sv : List ModelVector
  pub step_size : D
  pub model_time : D
  pub model_time_correction : D
  pub state : M

-- A function that the library does not have is `none`. step gives the code, the model time and
-- what it makes of the model, its signal vectors included; marshal_out and marshal_in come after and before the signal map's.
pub record MclVtable (D M : Type 0) : Type 0 where
  pub load : Option (Mcl D M → ℕ × Mcl D M)
  pub init : Option (Mcl D M → ℕ × Mcl D M)
  pub step : Option (Mcl D M → D → D → ℕ × D × Mcl D M)
  pub marshal_out : Option (Mcl D M → ℕ × Mcl D M)
  pub marshal_in : Option (Mcl D M → ℕ × Mcl D M)
  pub signalmap_out : Mcl D M → Mcl D M
  pub signalmap_in : Mcl D M → Mcl D M

abbrev pub minus_einval : ℕ
minus_einval = 4294967274

abbrev pub minus_one : ℕ
minus_one = 4294967295

-- The binary signals are empty.
unfoldable pub reset_vector : ModelVector → ModelVector
reset_vector v = if v.is_binary then record v { binary = map (λ b. []) v.binary } else v

unfoldable pub reset_binary : {D M : Type 0} → Mcl D M → Mcl D M
reset_binary m = record m { sv = map reset_vector m.sv }

-- One step of the model.
unfoldable pub take_step :
    {D M : Type 0} → (Mcl D M → D → D → ℕ × D × Mcl D M) → Mcl D M → D → ℕ × Mcl D M
take_step step m stop = let r = step m m.model_time stop in (r.0, record (r.2) { model_time = r.1 })

module _ {D M : Type 0} (double : Double D) where
  unfoldable pub epsilon : D → Mcl D M → D
  epsilon hundredth m =
      if double.eq m.step_size double.zero then double.zero else double.mul m.step_size hundredth

  -- The stop time of the next step, by Kahan summation if there is a step size.
  unfoldable pub next_stop : Mcl D M → D → D × Mcl D M
  next_stop m end_time =
      if double.eq m.step_size double.zero
      then (end_time, m)
      else let y = double.sub m.step_size m.model_time_correction in
        let t = double.add m.model_time y in
        (t, record m { model_time_correction = double.sub (double.sub t m.model_time) y })

module _ {D M : Type 0} (double : Double D) (step : Mcl D M → D → D → ℕ × D × Mcl D M) where
  -- The steps to the end time; `none` is what is left when the rounds are used up.
  unfoldable pub step_loop : ℕ → D → D → Mcl D M → Option (ℕ × Mcl D M)
  step_loop zero eps end_time m = none
  step_loop (suc rounds) eps end_time m =
      if double.le end_time m.model_time
      then some (minus_one, m)
      else let (stop, m') = next_stop double m end_time in
        if double.lt (double.add end_time eps) stop
        then some (0, m')
        else elim (double.lt (double.add stop eps) end_time) [
          | true ↦ step_loop rounds eps end_time (take_step step m' stop).1
          | false ↦ some (take_step step m' stop)
        ]

module _ {D M : Type 0} (double : Double D) (vtable : MclVtable D M) where
  -- `hundredth` is the constant 0.01.
  unfoldable pub mcl_step : ℕ → D → D → Mcl D M → Option (ℕ × Mcl D M)
  mcl_step rounds hundredth end_time m = elim vtable.step [
    | none ↦ some (minus_einval, m)
    | some step ↦
        step_loop double step rounds (epsilon double hundredth m) end_time (reset_binary m)
  ]

  unfoldable pub mcl_init : Mcl D M → ℕ × Mcl D M
  mcl_init m = elim vtable.init [ none ↦ (minus_einval, m) | some init ↦ init m ]

  unfoldable pub mcl_marshal_out : Mcl D M → ℕ × Mcl D M
  mcl_marshal_out m = elim vtable.marshal_out [
    | none ↦ (minus_einval, m)
    | some marshal_out ↦ marshal_out (vtable.signalmap_out m)
  ]

  unfoldable pub mcl_marshal_in : Mcl D M → ℕ × Mcl D M
  mcl_marshal_in m = elim vtable.marshal_in [
    | none ↦ (minus_einval, m)
    | some marshal_in ↦
        let r = marshal_in m in if r.0 == 0 then (r.0, vtable.signalmap_in r.1) else r
  ]

-- The code, the model time that the caller sees, and the library after the step.
pub record BuiltinStep (D M : Type 0) : Type 0 where
  pub rc : ℕ
  pub model_time : D
  pub mcl : Mcl D M

module _ {D M : Type 0} (double : Double D) (vtable : MclVtable D M) where
  unfoldable pub after_out : ℕ → D → D → D → Mcl D M → Option (BuiltinStep D M)
  after_out rounds hundredth model_time stop_time m =
      elim (mcl_step double vtable rounds hundredth stop_time m) [
        | none ↦ none
        | some r ↦ some (
            if not (r.0 == 0)
            then record { rc = r.0; model_time = model_time; mcl = r.1 }
            else let s = mcl_marshal_in double vtable r.1 in
              record {
                rc = s.0;
                model_time = if s.0 == 0 then stop_time else model_time;
                mcl = s.1;
              })
      ]

  unfoldable pub mcl_builtin_model_step : ℕ → D → D → D → Mcl D M → Option (BuiltinStep D M)
  mcl_builtin_model_step rounds hundredth model_time stop_time m =
      let o = mcl_marshal_out double vtable m in
      if not (o.0 == 0)
      then some (record { rc = o.0; model_time = model_time; mcl = o.1 })
      else after_out rounds hundredth model_time stop_time o.1
