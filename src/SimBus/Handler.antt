-- ===== src/SimBus/Handler.antt =====
-- The messages that the bus handles: dse/modelc/adapter/simbus/handler.c and
-- simbus_generate_uid_hash() of adapter.c. A message is what its tables hold; a name or uid
-- vector that must be present is. A fault of the C code is `none`.
pub mod Receive
use dse_modelc.Base.{
  ℕ, zero, suc, ◌+◌, Bool, true, false, not, ◌&&◌, ◌||◌, Option, none, some, List, [], ◌∷◌, ◌++◌,
  map, length, get_elem?, set, take, ◌==◌, ◌>>=◌, if◌then◌else◌,
}
use dse_modelc.Word.{fnv_loop}
use dse_modelc.Double.{Double}
use dse_modelc.SimBus.{UidSet, SignalValue, Channel, Bus}
use dse_modelc.SimBus.Index.{
  same_name, find_signal_by_uid, get_signal_value, refresh_index, generate_index,
}
use dse_modelc.SimBus.States.{
  network_ready, models_ready, models_to_start, model_at_register, model_at_ready, model_at_exit,
}

-- The table SignalVector: signals by uid, and binary signals by uid.
pub record SignalVector (D : Type 0) : Type 0 where
  pub channel : List ℕ
  pub model_uid : ℕ
  pub signal : List (ℕ × D)
  pub binary_signal : List (ℕ × List ℕ)

pub record ModelRegister (D : Type 0) : Type 0 where
  pub channel : List ℕ
  pub model_uid : ℕ
  pub notify_uid : ℕ
  pub token : ℕ
  pub step_size : D

pub data Received (D : Type 0) : Type 0 where
  register : ModelRegister D → Received D
  -- Channel, model uid, token and the names that are looked up.
  signal_index : List ℕ → ℕ → ℕ → List (List ℕ) → Received D
  -- Channel and model uid.
  model_exit : List ℕ → ℕ → Received D
  notify : List (SignalVector D) → Received D

pub data Sent (D : Type 0) : Type 0 where
  -- The uid of the bus, and the table.
  registered : ℕ → ModelRegister D → Sent D
  -- Channel, model uid, token, and the uids by name.
  indexed : List ℕ → ℕ → ℕ → List (List ℕ × ℕ) → Sent D
  -- The signals, the model time and the schedule time.
  start : List (SignalVector D) → D → D → Sent D

unfoldable pub generate_uid_hash : List ℕ → ℕ
generate_uid_hash name = fnv_loop 2166136261 name

module _ {D S : Type 0} where
  -- hashmap_get(&am->channels, name)
  unfoldable pub channel_position : List ℕ → ℕ → List (Channel D S) → Option ℕ
  channel_position name i [] = none
  channel_position name i (c ∷ cs) =
      if same_name c.name name then some i else channel_position name (i + 1) cs

  -- One binary signal: its data are appended to the buffer.
  unfoldable pub receive_binary : Channel D S → ℕ × List ℕ → Option (Channel D S)
  receive_binary c (uid, data_vec) =
      let (found, c') = find_signal_by_uid c uid in
      elim found [
        | none ↦ if not (uid == 0) || length data_vec == 0 then some c' else none
        | some i ↦ get_elem? c'.signal_values i >>= (λ sv. some (record c' {
          signal_values = set c'.signal_values i (record sv { bin = sv.bin ++ data_vec });
        }))
      ]

  -- One signal of a vector; `assign` is what the code does to the signal value.
  unfoldable pub receive_with :
      {V : Type 0}
      → (V → SignalValue D → SignalValue D)
      → Channel D S
      → ℕ × V
      → Option (Channel D S)
  receive_with assign c (uid, value) =
      let (found, c') = find_signal_by_uid c uid in
      elim found [
        | none ↦ if not (uid == 0) then some c' else none
        | some i ↦ get_elem? c'.signal_values i >>= (λ sv.
            some (record c' { signal_values = set c'.signal_values i (assign value sv) }))
      ]

  -- One signal: its final value.
  unfoldable pub receive_signal : Channel D S → ℕ × D → Option (Channel D S)
  receive_signal = receive_with (λ value sv. record sv { final_val = value })

  unfoldable pub receive_all :
      {A : Type 0}
      → (Channel D S → A → Option (Channel D S))
      → Channel D S
      → List A
      → Option (Channel D S)
  receive_all receive c [] = some c
  receive_all receive c (x ∷ xs) = receive c x >>= (λ c'. receive_all receive c' xs)

  unfoldable pub process_notify_signalvector : Channel D S → SignalVector D → Option (Channel D S)
  process_notify_signalvector c v = do
    c' ← receive_all receive_binary c v.binary_signal
    receive_all receive_signal c' v.signal

-- One signal of resolve_channel().
unfoldable pub resolve_signal : {D : Type 0} → SignalValue D → SignalValue D
resolve_signal sv = record sv { val = sv.final_val; bin = [] }

unfoldable pub binary_signals : {D : Type 0} → List (SignalValue D) → List (ℕ × List ℕ)
binary_signals [] = []
binary_signals (sv ∷ svs) =
    if not (length sv.bin == 0) && not (sv.uid == 0)
    then (sv.uid, sv.bin) ∷ binary_signals svs
    else binary_signals svs

-- The signals of the index, which are the first ones.
unfoldable pub resolve_first : {D : Type 0} → ℕ → List (SignalValue D) → List (SignalValue D)
resolve_first zero svs = svs
resolve_first (suc count) [] = []
resolve_first (suc count) (sv ∷ svs) = resolve_signal sv ∷ resolve_first count svs

unfoldable pub resolve_channel : {D S : Type 0} → Channel D S → Channel D S
resolve_channel c =
    let c' = refresh_index c in
    record c' { signal_values = resolve_first c'.count c'.signal_values }

module _ {D : Type 0} (double : Double D) where
  unfoldable pub changed_signals : List (SignalValue D) → List (ℕ × D)
  changed_signals [] = []
  changed_signals (sv ∷ svs) =
      if not (double.eq sv.val sv.final_val) && not (sv.uid == 0)
      then (sv.uid, sv.final_val) ∷ changed_signals svs
      else changed_signals svs

  -- One channel of resolve_and_notify(): the vector of the signals of its index, which is refreshed
  -- first.
  unfoldable pub notify_channel : {S : Type 0} → ℕ → Channel D S → SignalVector D
  notify_channel model_uid c =
      let c' = refresh_index c in
      record {
        channel = c'.name;
        model_uid = model_uid;
        signal = changed_signals (take c'.count c'.signal_values);
        binary_signal = binary_signals (take c'.count c'.signal_values);
      }

module _ {D S : Type 0} (double : Double D) where
  -- Find or add the signal, and give it a uid.
  unfoldable pub process_signal_lookup : Channel D S → List ℕ → Option (ℕ × Channel D S)
  process_signal_lookup c name =
      let (i, c') = get_signal_value double.zero c name in
      get_elem? c'.signal_values i >>= (λ sv.
        let uid = if sv.uid == 0 then generate_uid_hash sv.name else sv.uid in
        some (uid, record c' { signal_values = set c'.signal_values i (record sv { uid = uid }) }))

  unfoldable pub lookup_all : Channel D S → List (List ℕ) → Option (List (List ℕ × ℕ) × Channel D S)
  lookup_all c [] = some ([], c)
  lookup_all c (name ∷ names) =
      process_signal_lookup c name
      >>= (λ r. lookup_all r.1 names >>= (λ s. some ((name, r.0) ∷ s.0, s.1)))

module _ {D S : Type 0} (double : Double D) (sets : UidSet S) where
  -- The time of the bus, by Kahan summation.
  unfoldable pub progress_time : Bus D S → Bus D S
  progress_time bus =
      let y = double.sub bus.bus_step_size bus.bus_time_correction in
      let t = double.add bus.bus_time y in
      record bus { bus_time_correction = double.sub (double.sub t bus.bus_time) y; bus_time = t }

  -- Resolve the bus: the message Notify/ModelStart, and the bus after it.
  unfoldable pub resolve_bus : Bus D S → Sent D × Bus D S
  resolve_bus bus =
      let bus' = progress_time bus in
      (
        Sent.start (map (notify_channel double bus'.model_uid) bus'.channels) bus'.bus_time
            (double.add bus'.bus_time bus'.bus_step_size),
        record bus' { channels = models_to_start sets (map resolve_channel bus'.channels) },
      )

  unfoldable pub after_notify : Bus D S → List (Sent D) × Bus D S
  after_notify bus =
      if network_ready sets bus.channels && models_ready sets bus.channels
      then ((resolve_bus bus).0 ∷ [], (resolve_bus bus).1)
      else ([], bus)

  -- A vector that has no name or no model uid is skipped by the code, and is not in the list here.
  -- The signal vectors of Notify/ModelReady. A vector for a channel that the bus does not have is
  -- a fault.
  unfoldable pub receive_vectors :
      List (Channel D S) → List (SignalVector D) → Option (List (Channel D S))
  receive_vectors cs [] = some cs
  receive_vectors cs (v ∷ vs) = channel_position v.channel 0 cs >>= (λ i. get_elem? cs i >>= (λ c.
      process_notify_signalvector c v
      >>= (λ c'. receive_vectors (set cs i (model_at_ready sets c' v.model_uid)) vs)))

  unfoldable pub handle_register : Bus D S → ModelRegister D → Option (List (Sent D) × Bus D S)
  handle_register bus r = do
    i ← channel_position r.channel 0 bus.channels
    c ← get_elem? bus.channels i
    some (
      if r.token == 0 then [] else Sent.registered bus.model_uid r ∷ [],
      record bus { channels = set bus.channels i (model_at_register sets c r.model_uid) },
    )

  unfoldable pub handle_signal_index :
      Bus D S → List ℕ → ℕ → ℕ → List (List ℕ) → Option (List (Sent D) × Bus D S)
  handle_signal_index bus channel uid token names = do
    i ← channel_position channel 0 bus.channels
    c ← get_elem? bus.channels i
    r ← lookup_all double c names
    some (
      Sent.indexed channel uid token r.0 ∷ [],
      record bus { channels = set bus.channels i (generate_index r.1) },
    )

  -- simbus_handle_notify_message(): the messages that are sent, and the bus after it.
  unfoldable pub handle : Bus D S → Received D → Option (List (Sent D) × Bus D S)
  handle bus (Received.register r) = handle_register bus r
  handle bus (Received.signal_index channel uid token names) =
      handle_signal_index bus channel uid token names
  handle bus (Received.model_exit channel uid) =
      channel_position channel 0 bus.channels
      >>= (λ i. model_at_exit sets bus i uid >>= (λ bus'. some ([], bus')))
  handle bus (Received.notify vectors) =
      receive_vectors bus.channels vectors
      >>= (λ cs. some (after_notify (record bus { channels = cs })))
