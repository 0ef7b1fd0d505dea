-- ===== src/Adapter/Loopback/Exchange.antt =====
-- The exchange of signals: adapter_loopb_model_ready(), adapter_loopb_model_start() and
-- simbus_vector_binary_reset() of dse/modelc/adapter/adapter_loopb.c. The vectors of different
-- channels do not overlap.
use dse_modelc.Base.{
  not, Option, some, List, [], ◌∷◌, ◌++◌, map, length, get_elem?, set, take, drop, ◌==◌, ◌>>=◌,
  if◌then◌else◌,
}
use dse_modelc.Double.{Double}
use dse_modelc.SimBus.{SignalValue, Channel}
use dse_modelc.SimBus.Index.{refresh_index}
use dse_modelc.Adapter.{AdapterModel}
use dse_modelc.Adapter.Loopback.{
  Slot, SimbusChannel, NameSet, AdapterState, Loopback, get_simbus_channel,
}

unfoldable pub reset_slot : {D : Type 0} → Slot D → Slot D
reset_slot s = record s { binary = [] }

unfoldable pub binary_reset : {D N : Type 0} → SimbusChannel D N → SimbusChannel D N
binary_reset sc = record sc { vector = map reset_slot sc.vector }

module _ {D : Type 0} (double : Double D) where
  -- One signal that is ready: its binary data are appended to the slot, or else its final value
  -- is written when it differs from its value.
  unfoldable pub ready_signal :
      SignalValue D → List (Slot D) → Option (SignalValue D × List (Slot D))
  ready_signal sv slots =
      if not (length sv.bin == 0)
      then (get_elem? slots sv.vector_index >>= (λ s. some (
        record sv { bin = [] },
        set slots sv.vector_index (record s { binary = s.binary ++ sv.bin }),
      )))
      else if double.eq sv.val sv.final_val
      then some (sv, slots)
      else (get_elem? slots sv.vector_index
          >>= (λ s. some (sv, set slots sv.vector_index (record s { scalar = sv.final_val }))))

  unfoldable pub ready_signals :
      List (SignalValue D) → List (Slot D) → Option (List (SignalValue D) × List (Slot D))
  ready_signals [] slots = some ([], slots)
  ready_signals (sv ∷ svs) slots = do
    r ← ready_signal sv slots
    s ← ready_signals svs r.1
    some (r.0 ∷ s.0, s.1)

-- One signal at the start of a step: the binary data of the slot, or else its scalar as both
-- values.
unfoldable pub start_signal : {D : Type 0} → List (Slot D) → SignalValue D → Option (SignalValue D)
start_signal slots sv = get_elem? slots sv.vector_index >>= (λ s. some (
    if not (length s.binary == 0)
    then record sv { bin = sv.bin ++ s.binary }
    else record sv { val = s.scalar; final_val = s.scalar }))

unfoldable pub start_signals :
    {D : Type 0} → List (Slot D) → List (SignalValue D) → Option (List (SignalValue D))
start_signals slots [] = some []
start_signals slots (sv ∷ svs) = do
  sv' ← start_signal slots sv
  svs' ← start_signals slots svs
  some (sv' ∷ svs')

module _ {D N : Type 0} (double : Double D) (names : NameSet N) where
  unfoldable pub ready_channels :
      {S : Type 0}
      → List (Channel D S)
      → List (SimbusChannel D N)
      → Option (List (Channel D S) × List (SimbusChannel D N))
  ready_channels [] scs = some ([], scs)
  ready_channels (c ∷ cs) scs =
      let (i, scs') = get_simbus_channel names scs c.name in
      let c' = refresh_index c in
      get_elem? scs' i >>= (λ sc.
        ready_signals double (take c'.count c'.signal_values) sc.vector >>= (λ r.
          ready_channels cs (set scs' i (record sc { vector = r.1 })) >>= (λ t.
            some (record c' { signal_values = r.0 ++ drop c'.count c'.signal_values } ∷ t.0, t.1))))

  unfoldable pub ready_models :
      {S : Type 0}
      → List (AdapterModel D S)
      → List (SimbusChannel D N)
      → Option (List (AdapterModel D S) × List (SimbusChannel D N))
  ready_models [] scs = some ([], scs)
  ready_models (am ∷ ams) scs = do
    r ← ready_channels am.channels scs
    s ← ready_models ams r.1
    some (record am { channels = r.0 } ∷ s.0, s.1)

  -- The first call after a start resets the binary data of the bus.
  unfoldable pub enter_ready : Loopback D N → Loopback D N
  enter_ready v = elim v.state [
    | AdapterState.ready ↦ v
    | _ ↦ record v { state = AdapterState.ready; channels = map binary_reset v.channels }
  ]

  unfoldable pub model_ready :
      {S : Type 0}
      → Loopback D N
      → List (AdapterModel D S)
      → Option (Loopback D N × List (AdapterModel D S))
  model_ready v ams =
      let v' = enter_ready v in
      ready_models ams v'.channels >>= (λ r. some (record v' { channels = r.1 }, r.0))

  unfoldable pub start_channels :
      {S : Type 0}
      → List (Channel D S)
      → List (SimbusChannel D N)
      → Option (List (Channel D S) × List (SimbusChannel D N))
  start_channels [] scs = some ([], scs)
  start_channels (c ∷ cs) scs =
      let (i, scs') = get_simbus_channel names scs c.name in
      let c' = refresh_index c in
      get_elem? scs' i >>= (λ sc.
        start_signals sc.vector (take c'.count c'.signal_values) >>= (λ svs.
          start_channels cs scs' >>= (λ t.
            some (record c' { signal_values = svs ++ drop c'.count c'.signal_values } ∷ t.0, t.1))))

  -- The stop time of each model progresses by a step.
  unfoldable pub start_models :
      {S : Type 0}
      → D
      → List (AdapterModel D S)
      → List (SimbusChannel D N)
      → Option (List (AdapterModel D S) × List (SimbusChannel D N))
  start_models step_size [] scs = some ([], scs)
  start_models step_size (am ∷ ams) scs = do
    r ← start_channels am.channels scs
    s ← start_models step_size ams r.1
    some (record am { stop_time = double.add am.model_time step_size; channels = r.0 } ∷ s.0, s.1)

  unfoldable pub model_start :
      {S : Type 0}
      → Loopback D N
      → List (AdapterModel D S)
      → Option (Loopback D N × List (AdapterModel D S))
  model_start v ams =
      start_models v.step_size ams v.channels
      >>= (λ r. some (record v { state = AdapterState.start; channels = r.1 }, r.0))

-- simbus_vector_binary_reset()
unfoldable pub vector_binary_reset : {D N : Type 0} → Loopback D N → Loopback D N
vector_binary_reset v = record v { channels = map binary_reset v.channels }
