-- ===== src/Controller/Step.antt =====
-- The step of the models: _do_step_func(), step_model() and sim_step_models() of
-- dse/modelc/controller/step.c, and controller_step() and controller_step_phased() of
-- controller.c, for instances without a PDU network. The step function of a model is given. A fault
-- is `none`.
pub mod Result
pub mod Cycle
use dse_modelc.Base.{
  ℕ, zero, suc, ◌+◌, ◌^◌, leb, ◌==◌, Bool, true, false, not, Option, some, List, get_elem?, set,
  length, ◌>>=◌, if◌then◌else◌,
}
use dse_modelc.Double.{Double}
use dse_modelc.Controller.{ModelFunction, ModelInstance, Simulation, MarshalDir}
use dse_modelc.Controller.Transform.{LuaCalls}
use dse_modelc.Controller.Marshal.{marshal_model}
use dse_modelc.Controller.Merge.{merge_scalar_signals_forward, merge_all_backward}

-- What md->vtable.step() gives: the code (an int, as its bit pattern), the model time that it leaves
-- in its in/out parameter, the model functions with the vectors that it has written, and the
-- state of the models, which is the interpreter's too.
pub record StepResult (D L : Type 0) : Type 0 where
  pub rc : ℕ
  pub model_time : D
  pub model_functions : List (ModelFunction D)
  pub state : L

pub record ModelVtable (D L : Type 0) : Type 0 where
  pub step : L → List (ModelFunction D) → D → D → StepResult D L

module _ {D S L : Type 0} (vtable : ModelVtable D L) where
  -- The call, and the code that the caller gets: that of the step, and the model time which it
  -- reached, are not passed on.
  unfoldable pub do_step_func : L → ModelInstance D S → ℕ × ModelInstance D S × L
  do_step_func l mi =
      let r = vtable.step l mi.model_functions mi.model_time mi.stop_time in
      (0, record mi { model_functions = r.model_functions }, r.state)

  -- One call for each model function, until a code is not 0.
  unfoldable pub step_functions : ℕ → L → ModelInstance D S → ℕ × ModelInstance D S × L
  step_functions zero l mi = (0, mi, l)
  step_functions (suc count) l mi =
      let r = do_step_func l mi in
      let rest = step_functions count r.2 r.1 in if r.0 == 0 then rest else r

  unfoldable pub step_model : L → ModelInstance D S → ℕ × ModelInstance D S × L
  step_model l mi =
      let r = step_functions (length mi.model_functions) l mi in
      (r.0, record (r.1) { model_time = mi.stop_time }, r.2)

-- The code, the time of the last instance that was stepped, and the instances and the state after
-- the step.
pub record Stepped (D S L : Type 0) : Type 0 where
  pub rc : ℕ
  pub model_time : D
  pub instances : List (ModelInstance D S)
  pub state : L

module _ {D S L : Type 0} (double : Double D) (lua : LuaCalls D L) (vtable : ModelVtable D L) where
  -- Before and after the step of the instance at j in a sequential co-simulation.
  unfoldable pub before_step :
      Bool → ℕ → L → List (ModelInstance D S) → Option (List (ModelInstance D S) × L)
  before_step false j l mis = some (mis, l)
  before_step true j l mis = do
    mis' ← merge_scalar_signals_forward double j mis
    mi ← get_elem? mis' j
    r ← marshal_model double lua MarshalDir.adapter2model_scalar_only l mi
    some (set mis' j r.0, r.1)

  unfoldable pub after_step : Bool → L → ModelInstance D S → Option (ModelInstance D S × L)
  after_step false l mi = some (mi, l)
  after_step true l mi = marshal_model double lua MarshalDir.model2adapter_scalar_only l mi

  -- The instances j, j + 1, ..., `count` of them.
  unfoldable pub step_instances :
      Bool → ℕ → ℕ → D → L → List (ModelInstance D S) → Option (Stepped D S L)
  step_instances sequential j zero time l mis =
      some (record { rc = 0; model_time = time; instances = mis; state = l })
  step_instances sequential j (suc count) time l mis = before_step sequential j l mis >>= (λ b.
      get_elem? b.0 j >>= (λ mi.
        let r = step_model vtable b.1 mi in
        elim (r.0 == 0) [
          | false ↦ some (record {
            rc = r.0;
            model_time = mi.stop_time;
            instances = set b.0 j r.1;
            state = r.2;
          })
          | true ↦
              after_step sequential r.2 r.1
              >>= (λ a. step_instances sequential (j + 1) count mi.stop_time a.1 (set b.0 j a.0))
        ]))

  -- The code is 1 if a model failed, with a negative int, and 2 if one asked to exit.
  unfoldable pub sim_step_models : Simulation D S → D → L → Option (Stepped D S L)
  sim_step_models sim time l =
      step_instances sim.sequential_cosim 0 (length sim.instances) time l sim.instances >>= (λ s.
        if leb (2 ^ 31) s.rc
        then some (record s { rc = 1 })
        else if not (s.rc == 0)
        then some (record s { rc = 2 })
        else if sim.sequential_cosim
        then (merge_all_backward double 0 (length s.instances) s.instances
            >>= (λ mis. some (record s { instances = mis })))
        else some s)
