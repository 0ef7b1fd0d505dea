-- ===== src/Controller/Run.antt =====
-- A simulation run by its controller: controller_bus_ready(), controller_run() and
-- controller_exit() of dse/modelc/controller/controller.c. A stop that is requested from an interrupt
-- is what the controller sees each time it looks: `looks` is the list of these.
use dse_modelc.Base.{Bool, true, false, Option, none, some, List, [], ◌∷◌, ◌==◌}
use dse_modelc.Double.{Double}
use dse_modelc.Controller.{Simulation}
use dse_modelc.Controller.Calls.{AdapterVtable, adapter_connect, adapter_register, adapter_exit}
use dse_modelc.Controller.Transform.{LuaCalls}
use dse_modelc.Controller.Step.{ModelVtable}
use dse_modelc.Controller.Step.Cycle.{controller_step}

-- A run that is not at its end when the looks are used up, a fault of a cycle, and the end: whether
-- the run was cancelled, the simulation and the state.
pub data Outcome (D S L : Type 0) : Type 0 where
  running : Simulation D S → L → Outcome D S L
  fault : Outcome D S L
  ended : Bool → Simulation D S → L → Outcome D S L

module _ {D S L : Type 0} (double : Double D) (lua : LuaCalls D L) (models : ModelVtable D L)
    (adapter : AdapterVtable D S L) where
  unfoldable pub run_loop : List Bool → Simulation D S → L → Outcome D S L
  run_loop [] sim l = Outcome.running sim l
  run_loop (true ∷ looks) sim l = Outcome.ended true sim l
  run_loop (false ∷ looks) sim l = elim (controller_step double lua models adapter sim l) [
    | none ↦ Outcome.fault
    | some c ↦ elim (c.rc == 0) [
      | true ↦ run_loop looks c.simulation c.state
      | false ↦ Outcome.ended false c.simulation c.state
    ]
  ]

  -- The endpoint is started, the bus connected, and the signals registered unless a stop is requested.
  unfoldable pub controller_bus_ready : (L → L) → Bool → Simulation D S → L → Simulation D S × L
  controller_bus_ready start stopped sim l =
      let r = adapter_connect adapter (start l) sim.instances in
      elim stopped [
        | true ↦ (record sim { instances = r.1 }, r.2)
        | false ↦ let s = adapter_register adapter r.2 r.1 in (record sim { instances = s.1 }, s.2)
      ]

  unfoldable pub controller_run : (L → L) → Bool → List Bool → Simulation D S → L → Outcome D S L
  controller_run start stopped looks sim l =
      let r = controller_bus_ready start stopped sim l in run_loop looks r.0 r.1

  -- The destroy functions of the models that have one, in order.
  unfoldable pub destroy_models : List (Option (L → L)) → L → L
  destroy_models [] l = l
  destroy_models (none ∷ fs) l = destroy_models fs l
  destroy_models (some f ∷ fs) l = destroy_models fs (f l)

  unfoldable pub controller_exit : List (Option (L → L)) → Simulation D S → L → Simulation D S × L
  controller_exit destroys sim l =
      let r = adapter_exit adapter (destroy_models destroys l) sim.instances in
      (record sim { instances = r.1 }, r.2)
