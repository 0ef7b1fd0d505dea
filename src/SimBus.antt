-- ===== src/SimBus.antt =====
-- The bus side of a simulation: dse/modelc/adapter/simbus and the channel index of
-- dse/modelc/adapter/index.c. The hash map of signals is a list in the order of its keys; a pointer
-- to a signal value is its position. Log output and profiling are left out.
pub mod Index
pub mod States
pub mod Handler
pub mod Barrier
pub mod Step
pub mod Live
pub mod Safe
pub mod Run
use dse_modelc.Base.{
  ℕ, suc, ◌+◌, ◌≡◌, Bool, true, false, List, if◌then◌else◌, Option, ◌==◌, not, ◌&&◌,
}

-- The sets of model uids, of the C library that the code uses.
pub record UidSet (S : Type 0) : Type 0 where
  pub add : S → ℕ → S
  pub remove : S → ℕ → S
  pub clear : S → S
  pub size : S → ℕ
  pub has : S → ℕ → Bool
  pub size_add : (s : S) (u : ℕ) → size (add s u) ≡ (if has s u then size s else suc (size s))
  pub has_add : (s : S) (u v : ℕ) → has (add s u) v ≡ (if u == v then true else has s v)
  pub size_remove :
      (s : S) (u : ℕ) → (if has s u then suc (size (remove s u)) else size (remove s u)) ≡ size s
  pub has_remove : (s : S) (u v : ℕ) → has (remove s u) v ≡ (if u == v then false else has s v)
  pub size_clear : (s : S) → size (clear s) ≡ 0
  pub has_clear : (s : S) (u : ℕ) → has (clear s) u ≡ false

-- `vector_index` is of use to the loopback adapter only; `bin` holds the bin_size bytes of the buffer.
pub record SignalValue (D : Type 0) : Type 0 where
  pub name : List ℕ
  pub uid : ℕ
  pub vector_index : ℕ
  pub val : D
  pub final_val : D
  pub bin : List ℕ

-- `count` is the length of the index, which holds the first signals; `names` tells whether
-- there is one.
pub record Channel (D S : Type 0) : Type 0 where
  pub name : List ℕ
  pub signal_values : List (SignalValue D)
  pub names : Bool
  pub count : ℕ
  pub hash_code : ℕ
  pub uid2sv_lookup : List (ℕ × ℕ)
  pub model_register_set : S
  pub model_ready_set : S
  pub expected_model_count : ℕ

pub record Bus (D S : Type 0) : Type 0 where
  pub model_uid : ℕ
  pub channels : List (Channel D S)
  pub bus_time : D
  pub bus_step_size : D
  pub bus_time_correction : D
  -- __simbus_exit_run_loop__
  pub exit_run_loop : Bool
