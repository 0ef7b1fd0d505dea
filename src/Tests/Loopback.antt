-- ===== src/Tests/Loopback.antt =====
-- Two models of one process on a channel of two signals, and two groups of the direct index.
use dse_modelc.Base.{ℕ, ◌≤◌, ◌≡◌, refl, false, some, List, [], ◌∷◌, arith, All, length}
use dse_modelc.SimBus.{SignalValue}
use dse_modelc.Adapter.Loopback.{Slot, NameSet, AdapterState, Loopback}
use dse_modelc.Adapter.Loopback.Exchange.{start_signals}
use dse_modelc.Adapter.Loopback.Cycle.{
  IsStarted, scalar_at, ready_each, written_each, ready_each-IsStarted,
}
use dse_modelc.Adapter.Loopback.Layout.{DirectIndex, connect}
use dse_modelc.Adapter.Loopback.Bounds.{IsWithin, connect-IsWithin}
use dse_modelc.Tests.Common.{whole}
use dse_modelc.Tests.SimBus.{speed, frames}

-- A set as the list of its names.
abbrev name_lists : NameSet (List (List ℕ))
name_lists = record { empty = []; add = λ s name. name ∷ s; to_array = λ s. s }

abbrev slots : List (Slot ℕ)
slots =
    record { signal = 115 ∷ []; uid = 21; scalar = 3; binary = [] }
    ∷ record { signal = 102 ∷ []; uid = 22; scalar = 6; binary = [] }
    ∷ []

abbrev models : List (List (SignalValue ℕ))
models =
    (speed ∷ [])
    ∷ (record frames { bin = []; final_val = 8 } ∷ record speed { final_val = 9 } ∷ [])
    ∷ []

loopback_example :
    (slots' : List (Slot ℕ)) × (svs' : List (SignalValue ℕ)) × (ready_each whole models slots
      ≡ some slots')
    × (start_signals slots' (speed ∷ []) ≡ some svs')
    × (length svs' ≡ 1)
    × All (IsStarted (written_each whole models (scalar_at slots))) svs'
loopback_example =
    ready_each-IsStarted whole models (speed ∷ []) slots
      (((refl, omega arith), tt), (((refl, omega arith), ((refl, omega arith), tt)), tt))
      ((refl, omega arith), tt) (refl, (refl, tt))

abbrev new_adapter : Loopback ℕ (List (List ℕ))
new_adapter = record {
  configured = false;
  step_size = 0;
  channels = [];
  state = AdapterState.idle;
  direct_active = false;
  map_size = 0;
}

abbrev groups : List DirectIndex
groups =
    record { name = 97 ∷ []; offset = 2; length = 1; signals = (115 ∷ []) ∷ [] }
    ∷ record { name = 98 ∷ []; offset = 0; length = 2; signals = (115 ∷ []) ∷ (102 ∷ []) ∷ [] }
    ∷ []

bounds_example :
    (v' : Loopback ℕ (List (List ℕ))) × (connect whole name_lists new_adapter 5 groups ≡ some v')
    × All (IsWithin v'.map_size) v'.channels
    × (0 ≤ v'.map_size)
bounds_example = connect-IsWithin whole name_lists new_adapter 5 groups refl
