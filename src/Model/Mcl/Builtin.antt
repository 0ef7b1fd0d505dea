-- ===== src/Model/Mcl/Builtin.antt =====
-- A step of a model that a library runs: mcl_builtin_model_step() of dse/modelc/model/mcl.c.
use dse_modelc.Base.{ℕ, zero, suc, ◌≡◌, Bool, true, not, ◌&&◌, List, [], ◌∷◌, ◌==◌, if◌then◌else◌}
use dse_modelc.Double.{Double}
use dse_modelc.Model.Mcl.{Mcl, BuiltinStep, minus_one, next_stop, take_step}

module _ {D M : Type 0} (double : Double D) (step : Mcl D M → D → D → ℕ × D × Mcl D M)
    (eps end_time : D) where
  -- The step of the library from a model.
  abbrev pub stepped : Mcl D M → ℕ × Mcl D M
  stepped m = take_step step (next_stop double m end_time).1 (next_stop double m end_time).0

  -- A step from here is due, and is not the last one.
  abbrev pub goes_on : Mcl D M → Bool
  goes_on m =
      not (double.le end_time m.model_time)
      && (not (double.lt (double.add end_time eps) (next_stop double m end_time).0)
          && double.lt (double.add (next_stop double m end_time).0 eps) end_time)

  abbrev pub after_steps : ℕ → Mcl D M → Mcl D M
  after_steps zero m = m
  after_steps (suc n) m = after_steps n (stepped m).1

  -- The first n steps go on, whatever codes they give.
  abbrev pub GoOn : ℕ → Mcl D M → Type 0
  GoOn zero m = Unit
  GoOn (suc n) m = (goes_on m ≡ true) × GoOn n (stepped m).1

  -- Where the steps end: -1 if the model is at the end time, 0 if a step would pass it, and the
  -- last step if not.
  abbrev pub last_step : Mcl D M → ℕ × Mcl D M
  last_step m =
      if double.le end_time m.model_time
      then (minus_one, m)
      else if double.lt (double.add end_time eps) (next_stop double m end_time).0
      then (0, (next_stop double m end_time).1)
      else stepped m

-- The first of some calls that fails, or the last one.
abbrev pub first_failed : {A : Type 0} → ℕ × A → List (ℕ × A) → ℕ × A
first_failed x [] = x
first_failed x (y ∷ ys) = if x.0 == 0 then first_failed y ys else x

-- What the caller sees of a call that is the first to fail, or the last one.
abbrev pub report : {D M : Type 0} → D → D → ℕ × Mcl D M → BuiltinStep D M
report model_time stop_time r = record {
  rc = r.0;
  model_time = if r.0 == 0 then stop_time else model_time;
  mcl = r.1;
}
