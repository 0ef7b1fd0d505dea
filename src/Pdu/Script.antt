-- ===== src/Pdu/Script.antt =====
-- The Lua scripts of a PDU network, which the user of the library supplies. They are called through
-- pdunet_lua_pdu_call() and pdunet_lua_signal_call() of dse/modelc/model/pdunet/lua.c.
use dse_modelc.Base.{ℕ, Bool, Option, List, ◌≡◌, ◌<◌, All, length}

-- What a call for a PDU leaves: whether it returned 0, the payload and the interpreter.
pub record ScriptResult (L : Type 0) : Type 0 where
  pub accepted : Bool
  pub payload : List ℕ
  pub lua : L

-- What a call for a signal leaves.
pub record SignalResult (D L : Type 0) : Type 0 where
  pub phys : D
  pub raw : ℕ
  pub payload : Option (List ℕ)
  pub lua : L

-- A script is handed the payload in place, so it cannot change its length, and what it writes there
-- are bytes.
pub record Scripts (D L : Type 0) : Type 0 where
  pub pdu_call : L → ℕ → List ℕ → ScriptResult L
  pub signal_call : L → ℕ → D → ℕ → Option (List ℕ) → SignalResult D L
  pub length_kept :
      (lua : L) (ref : ℕ) (payload : List ℕ)
      → length (pdu_call lua ref payload).payload ≡ length payload
  pub bytes_kept :
      (lua : L) (ref : ℕ) (payload : List ℕ)
      → All (λ x. x < 256) payload
      → All (λ x. x < 256) (pdu_call lua ref payload).payload
