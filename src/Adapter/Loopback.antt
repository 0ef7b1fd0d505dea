-- ===== src/Adapter/Loopback.antt =====
-- The loopback adapter, which joins the models of one process: dse/modelc/adapter/adapter_loopb.c,
-- with the vectors of dse/modelc/adapter/simbus/simbus.h. A vector is a list of slots, one for each
-- signal; the hash map from names to indexes is the search for a name. The sets of names belong to
-- the C library and are given. A fault or log_fatal() is `none`.
pub mod Exchange
pub mod Cycle
pub mod Layout
pub mod Bounds
use dse_modelc.Base.{
  ℕ, zero, suc, ◌+◌, ◌≡◌, ◌⊎◌, Bool, true, false, Option, none, some, List, [], ◌∷◌, ◌++◌, map,
  length, get_elem?, set, take, drop, ◌==◌, ◌>>=◌, if◌then◌else◌,
}
use dse_modelc.Double.{Double}
use dse_modelc.SimBus.{SignalValue, Channel}
use dse_modelc.SimBus.Index.{same_name, refresh_index, invalidate_index}
use dse_modelc.SimBus.Handler.{generate_uid_hash}
use dse_modelc.Adapter.{AdapterModel}

-- One signal of a SimbusVector; `binary` holds the `length` bytes of the buffer.
pub record Slot (D : Type 0) : Type 0 where
  pub signal : List ℕ
  pub uid : ℕ
  pub scalar : D
  pub binary : List ℕ

pub record NameSet (N : Type 0) : Type 0 where
  pub empty : N
  pub add : N → List ℕ → N
  pub to_array : N → List (List ℕ)

-- `offset` and `length` place the vector in the map of the direct index; a channel that has no
-- index yet is not initialised.
pub record SimbusChannel (D N : Type 0) : Type 0 where
  pub name : List ℕ
  pub signals : N
  pub vector : List (Slot D)
  pub has_index : Bool
  pub offset : ℕ
  pub length : ℕ

pub data AdapterState : Type 0 where
  idle : AdapterState
  ready : AdapterState
  start : AdapterState

pub record Loopback (D N : Type 0) : Type 0 where
  pub configured : Bool
  pub step_size : D
  pub channels : List (SimbusChannel D N)
  pub state : AdapterState
  pub direct_active : Bool
  pub map_size : ℕ

module _ {D N : Type 0} where
  unfoldable pub find_channel : List ℕ → ℕ → List (SimbusChannel D N) → Option ℕ
  find_channel name i [] = none
  find_channel name i (sc ∷ scs) =
      if same_name sc.name name then some i else find_channel name (i + 1) scs

  -- The position of the channel with a name, which is added if there is none.
  unfoldable pub get_simbus_channel :
      NameSet N → List (SimbusChannel D N) → List ℕ → ℕ × List (SimbusChannel D N)
  get_simbus_channel names scs name = elim (find_channel name 0 scs) [
    | some i ↦ (i, scs)
    | none ↦ (
      length scs,
      scs
          ++ record {
            name = name;
            signals = names.empty;
            vector = [];
            has_index = false;
            offset = 0;
            length = 0;
          }
            ∷ [],
    )
  ]

-- hashmap_get(&sc->vector.index, name)
unfoldable pub find_slot : {D : Type 0} → List ℕ → ℕ → List (Slot D) → Option ℕ
find_slot name i [] = none
find_slot name i (s ∷ ss) = if same_name s.signal name then some i else find_slot name (i + 1) ss

module _ {D N : Type 0} (double : Double D) (names : NameSet N) where
  unfoldable pub new_slot : List ℕ → Slot D
  new_slot name = record {
    signal = name;
    uid = generate_uid_hash name;
    scalar = double.zero;
    binary = [];
  }

  -- The vector of a channel; what it held before is lost.
  unfoldable pub generate_vector : SimbusChannel D N → SimbusChannel D N
  generate_vector sc = record sc {
    vector = map new_slot (names.to_array sc.signals);
    has_index = true;
  }

  unfoldable pub add_names : N → List (SignalValue D) → N
  add_names s [] = s
  add_names s (sv ∷ svs) = add_names (names.add s sv.name) svs

  -- simbus_register_channels(): the names of the model's channels are added to the bus's.
  unfoldable pub register_names :
      {S : Type 0}
      → Bool
      → List (Channel D S)
      → List (SimbusChannel D N)
      → Option (List (Channel D S) × List (SimbusChannel D N))
  register_names direct [] scs = some ([], scs)
  register_names direct (c ∷ cs) scs =
      let (i, scs') = get_simbus_channel names scs c.name in
      get_elem? scs' i >>= (λ sc.
        let c' = if direct then c else refresh_index c in
        let sc' =
          if direct
          then sc
          else record sc { signals = add_names sc.signals (take c'.count c'.signal_values) } in
        register_names direct cs (set scs' i sc') >>= (λ r. some (invalidate_index c' ∷ r.0, r.1)))

  unfoldable pub regenerate_vectors : Bool → List (SimbusChannel D N) → List (SimbusChannel D N)
  regenerate_vectors direct scs = if direct then scs else map generate_vector scs

  -- A signal that the bus has gets its uid and its index in the vector.
  unfoldable pub cache_index : List (Slot D) → SignalValue D → SignalValue D
  cache_index vector sv = elim (find_slot sv.name 0 vector) [
    | none ↦ sv
    | some i ↦ elim (get_elem? vector i) [
      | none ↦ sv
      | some s ↦ record sv { vector_index = i; uid = s.uid }
    ]
  ]

  unfoldable pub cache_channel : {S : Type 0} → SimbusChannel D N → Channel D S → Channel D S
  cache_channel sc c =
      let c' = refresh_index c in
      record c' {
        signal_values =
            map (cache_index sc.vector) (take c'.count c'.signal_values)
            ++ drop c'.count c'.signal_values;
      }

  unfoldable pub cache_channels :
      {S : Type 0}
      → List (Channel D S)
      → List (SimbusChannel D N)
      → Option (List (Channel D S) × List (SimbusChannel D N))
  cache_channels [] scs = some ([], scs)
  cache_channels (c ∷ cs) scs =
      let (i, scs') = get_simbus_channel names scs c.name in
      get_elem? scs' i >>= (λ sc.
        if sc.has_index
        then (cache_channels cs scs' >>= (λ r. some (cache_channel sc c ∷ r.0, r.1)))
        else none)

  -- adapter_loopb_register()
  unfoldable pub register :
      {S : Type 0} → Loopback D N → AdapterModel D S → Option (Loopback D N × AdapterModel D S)
  register v am = register_names v.direct_active am.channels v.channels >>= (λ r.
      cache_channels r.0 (regenerate_vectors v.direct_active r.1)
      >>= (λ s. some (record v { channels = s.1 }, record am { channels = s.0 })))
