-- ===== src/Controller/Merge.antt =====
-- The merge of scalar signals between the instances of a sequential co-simulation:
-- _merge_scalar_signals_forward() and _merge_scalar_signals_backward() of
-- dse/modelc/controller/step.c.
pub mod Signals
use dse_modelc.Base.{
  ℕ, zero, suc, ◌+◌, ◌==◌, Option, none, some, List, [], ◌∷◌, ◌++◌, get_elem?, set, take, drop,
  length, ◌>>=◌, if◌then◌else◌,
}
use dse_modelc.Double.{Double}
use dse_modelc.SimBus.{SignalValue, Channel}
use dse_modelc.SimBus.Index.{get_signal_value}
use dse_modelc.SimBus.Handler.{channel_position}
use dse_modelc.Controller.{ModelFunctionChannel, ModelFunction, ModelInstance}

-- What a merge assigns to the target, given the final value of the source.
unfoldable pub merge_forward : {D : Type 0} → D → SignalValue D → SignalValue D
merge_forward value sv = record sv { val = value }

unfoldable pub merge_backward : {D : Type 0} → D → SignalValue D → SignalValue D
merge_backward value sv = record sv { final_val = value }

module _ {D S : Type 0} (double : Double D) (assign : D → SignalValue D → SignalValue D) where
  -- The signals of the target's index. _get_signal_value() adds the signals that the source does
  -- not have.
  unfoldable pub merge_signals :
      List (SignalValue D) → Channel D S → Option (List (SignalValue D) × Channel D S)
  merge_signals [] source = some ([], source)
  merge_signals (sv ∷ svs) source =
      let (i, source') = get_signal_value double.zero source sv.name in
      get_elem? source'.signal_values i >>= (λ sv_source.
        merge_signals svs source' >>= (λ r. some (assign sv_source.final_val sv ∷ r.0, r.1)))

  -- The target's channel and the source's channel after the merge.
  unfoldable pub merge_channel : Channel D S → Channel D S → Option (Channel D S × Channel D S)
  merge_channel target source =
      merge_signals (take target.count target.signal_values) source >>= (λ r.
        some (record target { signal_values = r.0 ++ drop target.count target.signal_values }, r.1))

  -- The scalar channels of a model function of the target. A channel that the source does not
  -- have is skipped; the target must have it.
  unfoldable pub merge_channels :
      List (ModelFunctionChannel D)
      → List (Channel D S)
      → List (Channel D S)
      → Option (List (Channel D S) × List (Channel D S))
  merge_channels [] targets sources = some (targets, sources)
  merge_channels (mfc ∷ mfcs) targets sources = elim mfc.signal_value_double [
    | none ↦ merge_channels mfcs targets sources
    | some values ↦ elim (channel_position mfc.channel_name 0 sources) [
      | none ↦ merge_channels mfcs targets sources
      | some k ↦ channel_position mfc.channel_name 0 targets >>= (λ j.
          get_elem? targets j >>= (λ target. get_elem? sources k >>= (λ source.
            merge_channel target source
            >>= (λ r. merge_channels mfcs (set targets j r.0) (set sources k r.1)))))
    ]
  ]

  unfoldable pub merge_functions :
      List (ModelFunction D)
      → List (Channel D S)
      → List (Channel D S)
      → Option (List (Channel D S) × List (Channel D S))
  merge_functions [] targets sources = some (targets, sources)
  merge_functions (mf ∷ mfs) targets sources =
      merge_channels mf.channels targets sources >>= (λ r. merge_functions mfs r.0 r.1)

  -- From the instance at k to the instance at j.
  unfoldable pub merge_instance :
      ℕ → ℕ → List (ModelInstance D S) → Option (List (ModelInstance D S))
  merge_instance j k mis = do
    target ← get_elem? mis j
    source ← get_elem? mis k
    r ← merge_functions target.model_functions target.channels source.channels
    some (set (set mis j (record target { channels = r.0 })) k (record source { channels = r.1 }))

  -- From the instances k, k + 1, ..., `count` of them, but j itself.
  unfoldable pub merge_from :
      ℕ → ℕ → ℕ → List (ModelInstance D S) → Option (List (ModelInstance D S))
  merge_from j k zero mis = some mis
  merge_from j k (suc count) mis =
      (if k == j then some mis else merge_instance j k mis)
      >>= (λ mis'. merge_from j (k + 1) count mis')

module _ {D S : Type 0} (double : Double D) where
  -- To the instance at j, from those before it.
  unfoldable pub merge_scalar_signals_forward :
      ℕ → List (ModelInstance D S) → Option (List (ModelInstance D S))
  merge_scalar_signals_forward j mis = merge_from double merge_forward j 0 j mis

  -- To the instance at j, from all others.
  unfoldable pub merge_scalar_signals_backward :
      ℕ → List (ModelInstance D S) → Option (List (ModelInstance D S))
  merge_scalar_signals_backward j mis = merge_from double merge_backward j 0 (length mis) mis

  -- To the instances j, j + 1, ..., `count` of them.
  unfoldable pub merge_all_backward :
      ℕ → ℕ → List (ModelInstance D S) → Option (List (ModelInstance D S))
  merge_all_backward j zero mis = some mis
  merge_all_backward j (suc count) mis =
      merge_scalar_signals_backward j mis >>= (λ mis'. merge_all_backward (j + 1) count mis')
