-- ===== src/SimBus/Step.antt =====
-- The step of the bus is taken once.
use dse_modelc.Base.{◌≡◌, ◌≢◌, inl, inr, false, ◌&&◌, List, [], ◌∷◌, map, arith, Bool-cases}
use dse_modelc.Double.{Double}
use dse_modelc.SimBus.{UidSet, Channel, Bus}
use dse_modelc.SimBus.Index.{refresh_index}
use dse_modelc.SimBus.States.{network_ready, models_ready, models_to_start}
use dse_modelc.SimBus.Handler.{resolve_channel, progress_time, resolve_bus, after_notify}

module _ {D S : Type 0} (double : Double D) (sets : UidSet S) where
  refresh-expected :
      (c : Channel D S) → (refresh_index c).expected_model_count ≡ c.expected_model_count
  refresh-expected c = elim (Bool-cases c.names) [ inl e ↦ rw e | inr e ↦ rw e ]

  expecting_waits :
      (c : Channel D S) (cs : List (Channel D S))
      → c.expected_model_count ≢ 0
      → models_ready sets (models_to_start sets (map resolve_channel (c ∷ cs))) ≡ false
  unfolding models_ready models_to_start resolve_channel
  expecting_waits c cs h =
      let empty = sets.size_clear (refresh_index c).model_ready_set in
      let same : (refresh_index c).expected_model_count ≡ c.expected_model_count =
        refresh-expected c in
      ground arith

  waits :
      (bus : Bus D S)
      → models_ready sets bus.channels ≡ false
      → after_notify double sets bus ≡ ([], bus)
  unfolding after_notify
  waits bus h =
      let no_step : (network_ready sets bus.channels && models_ready sets bus.channels) ≡ false =
        ground arith in
      rw (after_notify, no_step)

  -- The bus takes one step for each time that its models are ready: if its first channel expects a
  -- model, then after a step it waits again.
  pub after_notify-once :
      (bus : Bus D S) (c : Channel D S) (cs : List (Channel D S))
      → bus.channels ≡ c ∷ cs
      → c.expected_model_count ≢ 0
      → (after_notify double sets bus).0 ≢ []
      → after_notify double sets (after_notify double sets bus).1
        ≡ ([], (after_notify double sets bus).1)
  unfolding after_notify resolve_bus progress_time
  after_notify-once bus c cs e h stepped =
      elim (Bool-cases (network_ready sets bus.channels && models_ready sets bus.channels)) [
        | inl ready ↦
            let step : (after_notify double sets bus).1 ≡ (resolve_bus double sets bus).1 =
              rw (after_notify, ready) in
            waits (after_notify double sets bus).1
              (rw step (rw (resolve_bus, progress_time, e) (expecting_waits c cs h)))
        | inr wait ↦ absurd (stepped (rw (after_notify, wait)))
      ]
