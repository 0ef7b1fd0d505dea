-- ===== src/SimBus/Run.antt =====
-- The set-up and the run loop of the bus: simbus_adapter_create(), simbus_adapter_init_channel() and
-- simbus_adapter_run() of dse/modelc/adapter/simbus/adapter.c, and adapter_init_channel() of
-- dse/modelc/adapter/adapter.c. The messages of a buffer are handled one after the other; when no
-- buffer is left the bus waits.
pub mod Names
pub mod Setup
pub mod Safe
use dse_modelc.Base.{
  ℕ, zero, suc, ◌≡◌, ◌≢◌, refl, Bool, true, false, Option, none, some, List, [], ◌∷◌, ◌++◌, map,
  length, take, drop, ◌>>=◌, if◌then◌else◌,
}
use dse_modelc.Double.{Double}
use dse_modelc.SimBus.{UidSet, SignalValue, Channel, Bus}
use dse_modelc.SimBus.Index.{refresh_index, get_signal_value}
use dse_modelc.SimBus.Handler.{Received, Sent, generate_uid_hash, handle}

module _ {D S : Type 0} (double : Double D) where
  -- The bus time is set to 0.0 on the first step.
  unfoldable pub adapter_create : ℕ → D → Bus D S
  adapter_create uid bus_step_size = record {
    model_uid = uid;
    channels = [];
    bus_time = double.sub double.zero bus_step_size;
    bus_step_size = bus_step_size;
    bus_time_correction = double.zero;
    exit_run_loop = false;
  }

  -- Signals are created if they are missing.
  unfoldable pub create_signals : Channel D S → List (List ℕ) → Channel D S
  create_signals c [] = c
  create_signals c (name ∷ names) = create_signals (get_signal_value double.zero c name).1 names

  unfoldable pub init_signals : Channel D S → List (List ℕ) → Channel D S
  init_signals c names = refresh_index (create_signals c names)

-- Without models; `empty` is the empty set.
unfoldable pub create_channel : {D S : Type 0} → S → List ℕ → Channel D S
create_channel empty name = record {
  name = name;
  signal_values = [];
  names = false;
  count = 0;
  hash_code = 0;
  uid2sv_lookup = [];
  model_register_set = empty;
  model_ready_set = empty;
  expected_model_count = 0;
}

unfoldable pub give_uid : {D : Type 0} → SignalValue D → SignalValue D
give_uid sv = record sv { uid = generate_uid_hash sv.name }

-- The models that are expected, and the uids of the signals.
unfoldable pub init_channel : {D S : Type 0} → S → Channel D S → ℕ → Channel D S
init_channel empty c expected_model_count =
    let c' = refresh_index c in
    record c' {
      model_register_set = empty;
      model_ready_set = empty;
      expected_model_count = expected_model_count;
      signal_values =
          map give_uid (take c'.count c'.signal_values) ++ drop c'.count c'.signal_values;
    }

module _ {D S : Type 0} (double : Double D) (sets : UidSet S) where
  unfoldable pub handle_all : Bus D S → List (Received D) → Option (List (Sent D) × Bus D S)
  handle_all bus [] = some ([], bus)
  handle_all bus (m ∷ ms) =
      handle double sets bus m >>= (λ r. handle_all r.1 ms >>= (λ s. some (r.0 ++ s.0, s.1)))

  unfoldable pub run_loop : Bus D S → List (List (Received D)) → Option (List (Sent D) × Bus D S)
  run_loop bus [] = some ([], bus)
  run_loop bus (ms ∷ buffers) = handle_all bus ms >>= (λ r.
      if r.1.exit_run_loop
      then some r
      else (run_loop r.1 buffers >>= (λ s. some (r.0 ++ s.0, s.1))))

  unfoldable pub run : Bus D S → List (List (Received D)) → Option (List (Sent D) × Bus D S)
  run bus buffers = run_loop (record bus { exit_run_loop = false }) buffers
