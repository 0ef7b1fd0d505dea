-- ===== src/Tests/Controller.antt =====
-- Two instances of a model on the channel of Tests.SimBus.
use dse_modelc.Base.{
  ℕ, suc, ◌+◌, ◌-◌, ◌*◌, ◌/◌, ◌≡◌, refl, false, none, some, inl, inr, List, [], ◌∷◌, ◌++◌, map,
  arith, All, take, drop,
}
use dse_modelc.SimBus.{SignalValue, Channel}
use dse_modelc.Controller.{SignalTransform, ModelInstance, Simulation}
use dse_modelc.Controller.Transform.{
  LuaCalls, controller_transform_to_model, controller_transform_from_model,
}
use dse_modelc.Controller.Transform.Idle.{IsIdle, to_model-IsIdle}
use dse_modelc.Controller.Merge.{merge_backward, merge_channel}
use dse_modelc.Controller.Merge.Signals.{final_of, merge_channel-final}
use dse_modelc.Controller.Step.{ModelVtable, Stepped, sim_step_models}
use dse_modelc.Controller.Step.Result.{sim_step_models-succeeds}
use dse_modelc.Tests.Common.{whole}
use dse_modelc.Tests.SimBus.{speed, channel}

abbrev no_lua : LuaCalls ℕ ℕ
no_lua = record { call_value = λ l func_ref val. (none, suc l) }

-- A model that counts its steps, fails in each, and stays where it is.
abbrev failing : ModelVtable ℕ ℕ
failing = record {
  step = λ l mfs time stop. record {
    rc = 4294967295;
    model_time = time;
    model_functions = mfs;
    state = suc l;
  };
}

abbrev other : Channel ℕ (List ℕ)
other = record channel { signal_values = record speed { final_val = 8 } ∷ [] }

abbrev instance_at : ℕ → Channel ℕ (List ℕ) → ModelInstance ℕ (List ℕ)
instance_at time c = record {
  channels = c ∷ [];
  model_functions = record { channels = [] } ∷ [];
  model_time = time;
  stop_time = time + 5;
}

abbrev simulation : Simulation ℕ (List ℕ)
simulation = record {
  instances = instance_at 10 channel ∷ instance_at 12 other ∷ [];
  sequential_cosim = false;
  end_time = 0;
}

step_models_example :
    (s : Stepped ℕ (List ℕ) ℕ) × (sim_step_models whole no_lua failing simulation 0 7 ≡ some s)
    × (s.rc ≡ 0)
    × (map (λ mi. mi.model_time) s.instances ≡ 15 ∷ 17 ∷ [])
step_models_example = sim_step_models-succeeds whole no_lua failing simulation 0 7 refl

merge_example :
    (source' : Channel ℕ (List ℕ)) × (merge_channel whole merge_backward channel other
      ≡ some (
        record channel {
          signal_values =
              map
                (λ sv. merge_backward (final_of 0 other.signal_values sv.name) sv)
                (take 2 channel.signal_values)
              ++ drop 2 channel.signal_values;
        },
        source',
      ))
merge_example = merge_channel-final whole merge_backward channel other

-- Signals scaled by 2, where the halving undoes it, and one that is not transformed.
abbrev doubling : SignalTransform ℕ
doubling = record { factor = 2; offset = 1; model_ref = 0; vector_ref = 0 }

halved : (v : ℕ) → (v * 2 + 1 - 1) / 2 ≡ v
halved v = omega arith

round_example :
    (values : List ℕ) × (l1 : ℕ) × (svs' : List (SignalValue ℕ)) × (controller_transform_to_model
        whole no_lua 3
        (some (doubling ∷ record doubling { factor = 0 } ∷ []))
        channel.signal_values
        (1 ∷ 0 ∷ [])
      ≡ some (values, l1))
    × (controller_transform_from_model whole no_lua l1
          (some (doubling ∷ record doubling { factor = 0 } ∷ []))
          channel.signal_values
          (1 ∷ 0 ∷ [])
          values
        ≡ some (svs', l1))
    × All (IsIdle svs') (1 ∷ 0 ∷ [])
round_example =
    to_model-IsIdle whole no_lua channel.signal_values (1 ∷ 0 ∷ [])
      (doubling ∷ record doubling { factor = 0 } ∷ []) 3 (omega arith, (omega arith, tt))
      (omega arith) ((refl, refl, inr halved), ((refl, refl, inl refl), tt))
