-- ===== src/Double.antt =====
-- C's double and its conversions, which the model takes as given: a carrier with the operations
-- that the code uses. The equality test is symmetric and transitive, as IEEE 754 says (it holds of 0 and
-- -0, and does not hold of a NaN); nothing else is assumed but the laws that a theorem names.
use dse_modelc.Base.{ℕ, Bool, ◌≡◌, true}

pub record Double (D : Type 0) : Type 0 where
  pub zero : D
  pub add : D → D → D
  pub sub : D → D → D
  pub mul : D → D → D
  pub div : D → D → D
  -- The tests <, <= and ==.
  pub lt : D → D → Bool
  pub le : D → D → Bool
  pub eq : D → D → Bool
  pub is_nan : D → Bool
  -- Conversions to uint32_t, int32_t (as its bit pattern) and uint64_t, and from uint64_t.
  pub to_u32 : D → ℕ
  pub to_i32 : D → ℕ
  pub to_u64 : D → ℕ
  pub of_u64 : ℕ → D
  pub eq_sym : (x y : D) → eq x y ≡ true → eq y x ≡ true
  pub eq_trans : (x y z : D) → eq x y ≡ true → eq y z ≡ true → eq x z ≡ true
