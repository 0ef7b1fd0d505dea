-- ===== src/Tests/Live.antt =====
-- The bus of Tests.SimBus, while it waits for one of its two models.
use dse_modelc.Base.{ℕ, ◌≡◌, ◌⊎◌, refl, some, List, [], ◌∷◌, arith, All}
use dse_modelc.SimBus.{Channel, Bus}
use dse_modelc.SimBus.Index.{same_name}
use dse_modelc.SimBus.Handler.{SignalVector, Received, Sent, channel_position}
use dse_modelc.SimBus.Index.Lookup.{IsSound}
use dse_modelc.SimBus.Safe.Channels.{channel_names}
use dse_modelc.SimBus.Run.Safe.{run-IsSound}
use dse_modelc.SimBus.Run.{run}
use dse_modelc.Tests.Common.{whole}
use dse_modelc.Tests.SimBus.{channel, channel-IsSound, bus, uid_lists}

abbrev waiting : Channel ℕ (List ℕ)
waiting = record channel { model_ready_set = 8 ∷ [] }

abbrev report : SignalVector ℕ
report = record { channel = 99 ∷ []; model_uid = 7; signal = (21, 6) ∷ []; binary_signal = [] }

-- Two reports, and the exit of a model.
abbrev buffers : List (List (Received ℕ))
buffers =
    (Received.notify (report ∷ report ∷ []) ∷ []) ∷ (Received.model_exit report.channel 1 ∷ []) ∷ []

safe_example :
    (r : List (Sent ℕ) × Bus ℕ (List ℕ)) × (run whole uid_lists bus buffers ≡ some r)
    × All IsSound r.1.channels
    × (channel_names r.1.channels ≡ channel_names bus.channels)
unfolding channel_position same_name
safe_example =
    run-IsSound whole uid_lists bus buffers (channel-IsSound, tt)
      (
        ((((0, refl), ((omega arith, tt), tt)), (((0, refl), ((omega arith, tt), tt)), tt)), tt),
        (((0, refl), tt), tt),
      )

-- Two names with different hashes.
abbrev IsAsked : List ℕ → Type 0
IsAsked name = (name ≡ 115 ∷ []) ⊎ (name ≡ 102 ∷ [])

abbrev requests : List (List (List ℕ))
requests = ((115 ∷ []) ∷ []) ∷ ((102 ∷ []) ∷ (115 ∷ []) ∷ []) ∷ []
