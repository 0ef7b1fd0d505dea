-- ===== src/Controller/Step/Cycle.antt =====
-- One cycle of the simulation: controller_step() and controller_step_phased() of
-- dse/modelc/controller/controller.c. What the functions of the adapter's vtable do to the instances is
-- given.
use dse_modelc.Base.{ℕ, ◌==◌, true, false, ◌&&◌, Option, some, ◌>>=◌, if◌then◌else◌}
use dse_modelc.Double.{Double}
use dse_modelc.Controller.{Simulation, MarshalDir}
use dse_modelc.Controller.Calls.{
  AdapterVtable, adapter_ready, adapter_model_ready, adapter_model_start,
}
use dse_modelc.Controller.Transform.{LuaCalls}
use dse_modelc.Controller.Marshal.{marshal}
use dse_modelc.Controller.Step.{ModelVtable, sim_step_models}

-- The code, and the simulation and the state after the cycle.
pub record Cycled (D S L : Type 0) : Type 0 where
  pub rc : ℕ
  pub simulation : Simulation D S
  pub state : L

-- What the models have written goes to the adapter; in a sequential co-simulation the scalars
-- are there already.
unfoldable pub outward : {D S : Type 0} → Simulation D S → MarshalDir
outward sim =
    if sim.sequential_cosim then MarshalDir.model2adapter_binary_only else MarshalDir.model2adapter

module _ {D S L : Type 0} (double : Double D) (lua : LuaCalls D L) (vtable : ModelVtable D L)
    (adapter : AdapterVtable D S L) where
  -- The models' step, and whether the end time is passed.
  unfoldable pub step_and_end : Simulation D S → L → Option (Cycled D S L)
  step_and_end sim l = sim_step_models double lua vtable sim sim.end_time l >>= (λ s. some (record {
    rc =
        if s.rc == 0
        then (if double.lt double.zero sim.end_time && double.lt sim.end_time s.model_time
            then 1
            else 0)
        else s.rc;
    simulation = record sim { instances = s.instances };
    state = s.state;
  }))

  unfoldable pub controller_step : Simulation D S → L → Option (Cycled D S L)
  controller_step sim l = marshal double lua (outward sim) l sim.instances >>= (λ m.
      let r = adapter_ready adapter m.1 m.0 in
      elim (r.0 == 0) [
        | false ↦
            some (record { rc = r.0; simulation = record sim { instances = r.1 }; state = r.2 })
        | true ↦
            marshal double lua MarshalDir.adapter2model r.2 r.1
            >>= (λ n. step_and_end (record sim { instances = n.0 }) n.1)
      ])

  -- What is pushed after the step.
  unfoldable pub push : Cycled D S L → Option (Cycled D S L)
  push c = marshal double lua (outward c.simulation) c.state c.simulation.instances >>= (λ m.
      let r = adapter_model_ready adapter m.1 m.0 in
      some
        (record { rc = r.0; simulation = record (c.simulation) { instances = r.1 }; state = r.2 }))

  unfoldable pub controller_step_phased : Simulation D S → L → Option (Cycled D S L)
  controller_step_phased sim l =
      let r = adapter_model_start adapter l sim.instances in
      elim (r.0 == 0) [
        | false ↦
            some (record { rc = r.0; simulation = record sim { instances = r.1 }; state = r.2 })
        | true ↦ marshal double lua MarshalDir.adapter2model r.2 r.1 >>= (λ n.
            step_and_end (record sim { instances = n.0 }) n.1
            >>= (λ c. elim (c.rc == 0) [ true ↦ push c | false ↦ some c ]))
      ]
