-- ===== src/Adapter.antt =====
-- The adapter of a model: dse/modelc/adapter/adapter.c, adapter_msg.c, message.c and
-- adapter_loopb.c. Its data, and the operations of adapter.c. The hash maps are lists in the order
-- of their keys; a pointer to a model or a channel is its position.
pub mod Notify
pub mod Message
pub mod Session
pub mod Sync
pub mod Loopback
use dse_modelc.Base.{
  ℕ, ◌≡◌, Bool, true, List, Option, if◌then◌else◌, ◌==◌, [], ◌∷◌, ◌+◌, none, some,
}
use dse_modelc.SimBus.{Channel}
use dse_modelc.SimBus.Handler.{SignalVector}

pub record AdapterModel (D S : Type 0) : Type 0 where
  pub model_uid : ℕ
  pub model_time : D
  pub stop_time : D
  pub channels : List (Channel D S)

-- `token` is the counter of get_token().
pub record Adapter (D S : Type 0) : Type 0 where
  pub models : List (AdapterModel D S)
  pub stop_request : Bool
  pub token : ℕ

-- A NotifyMessage, by the tables that it holds.
pub data Notice (D : Type 0) : Type 0 where
  -- Token and model uid.
  model_register : ℕ → ℕ → Notice D
  -- Channel, model uid, token, and the uids by name.
  signal_index : List ℕ → ℕ → ℕ → List (List ℕ × ℕ) → Notice D
  model_exit : Notice D
  -- The signals, the model time and the schedule time.
  notify : List (SignalVector D) → D → D → Notice D

-- hashmap_get(&adapter->models, hash_key)
unfoldable pub model_position : {D S : Type 0} → ℕ → ℕ → List (AdapterModel D S) → Option ℕ
model_position uid i [] = none
model_position uid i (am ∷ ams) =
    if am.model_uid == uid then some i else model_position uid (i + 1) ams
