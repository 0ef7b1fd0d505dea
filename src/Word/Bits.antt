-- ===== src/Word/Bits.antt =====
-- The bit operations at variables. Each native operation is a recursion on binary digits with
-- fuel; `*_step` is its equation for the lowest digit, from which the other laws follow.
use Prim.Native.Nat.{
  min, max, digits, bitwise, differ, bit_and, bit_or, bit_xor, bit_and-bitwise, bit_or-bitwise,
  bit_xor-bitwise,
}
use native.Mathlib.Nat.{pow-suc}
use dse_modelc.Base.{ℕ, zero, suc, ◌+◌, ◌*◌, ◌/◌, ◌%◌, ◌^◌, ◌≤◌, ◌<◌, ◌≡◌, refl, ◌∙◌, arith}

module _ (end : ℕ → ℕ) (digit : ℕ → ℕ → ℕ) where
  -- The result does not depend on the fuel, once it reaches the first operand.
  digits_enough : (k l x y : ℕ) → x ≤ l → x ≤ k → digits end digit k x y ≡ digits end digit l x y
  digits_enough zero zero x y hl hk = refl
  digits_enough (suc k) (suc l) (suc x) y hl hk =
      rw (digits_enough k l (suc x / 2) (y / 2) (omega arith) (omega arith))
  digits_enough (suc k) (suc l) zero y hl hk = refl
  digits_enough (suc k) zero (suc x) y hl hk = absurd (omega arith)
  digits_enough (suc k) zero zero y hl hk = refl
  digits_enough zero (suc l) (suc x) y hl hk = absurd (omega arith)
  digits_enough zero (suc l) zero y hl hk = refl

  bitwise_lowest :
      (x y : ℕ)
      → bitwise end digit (suc x) y
        ≡ digit (suc x % 2) (y % 2) + 2 * bitwise end digit (suc x / 2) (y / 2)
  bitwise_lowest x y =
      let half = digits_enough x (suc x / 2) (suc x / 2) (y / 2) (omega arith) (omega arith) in
      omega (arith, half)

pub bit_and_step : (x y : ℕ) → bit_and x y ≡ min (x % 2) (y % 2) + 2 * bit_and (x / 2) (y / 2)
bit_and_step (suc x) y = simp bit_and-bitwise (bitwise_lowest (λ rest. 0) min x y)
bit_and_step zero y = simp bit_and-bitwise (omega arith)

pub bit_xor_step : (x y : ℕ) → bit_xor x y ≡ differ (x % 2) (y % 2) + 2 * bit_xor (x / 2) (y / 2)
bit_xor_step (suc x) y = simp bit_xor-bitwise (bitwise_lowest (λ rest. rest) differ x y)
bit_xor_step zero y = simp bit_xor-bitwise (omega arith)

pub bit_or_step : (x y : ℕ) → bit_or x y ≡ max (x % 2) (y % 2) + 2 * bit_or (x / 2) (y / 2)
bit_or_step (suc x) y = simp bit_or-bitwise (bitwise_lowest (λ rest. rest) max x y)
bit_or_step zero y = simp bit_or-bitwise (omega arith)

differ_digit : (x y : ℕ) → x < 2 → y < 2 → (differ x y < 2) × (differ x (differ x y) ≡ y)
differ_digit zero y hx hy = (hy, refl)
differ_digit (suc zero) zero hx hy = (omega arith, refl)
differ_digit (suc zero) (suc zero) hx hy = (omega arith, refl)
differ_digit (suc zero) (suc (suc y)) hx hy = absurd (omega arith)
differ_digit (suc (suc x)) y hx hy = absurd (omega arith)

differ_digits :
    (a b : ℕ) → (differ (a % 2) (b % 2) < 2) × (differ (a % 2) (differ (a % 2) (b % 2)) ≡ b % 2)
differ_digits a b = differ_digit (a % 2) (b % 2) (omega arith) (omega arith)

-- The lowest digit of an exclusive or, and the rest.
bit_xor_parts :
    (a b : ℕ)
    → (bit_xor a b / 2 ≡ bit_xor (a / 2) (b / 2)) × (bit_xor a b % 2 ≡ differ (a % 2) (b % 2))
bit_xor_parts a b = omega (arith, bit_xor_step a b, differ_digits a b)

differ_comm : (x y : ℕ) → x < 2 → y < 2 → differ x y ≡ differ y x
differ_comm zero zero hx hy = refl
differ_comm zero (suc zero) hx hy = refl
differ_comm (suc zero) zero hx hy = refl
differ_comm (suc zero) (suc zero) hx hy = refl
differ_comm x (suc (suc y)) hx hy = absurd (omega arith)
differ_comm (suc (suc x)) y hx hy = absurd (omega arith)

bit_xor_comm_below : (n a b : ℕ) → a ≤ n → b ≤ n → bit_xor a b ≡ bit_xor b a
bit_xor_comm_below zero zero zero ha hb = refl
bit_xor_comm_below zero zero (suc b) ha hb = absurd (omega arith)
bit_xor_comm_below zero (suc a) b ha hb = absurd (omega arith)
bit_xor_comm_below (suc n) a b ha hb = omega (
  arith,
  bit_xor_step a b,
  bit_xor_step b a,
  differ_comm (a % 2) (b % 2) (omega arith) (omega arith),
  bit_xor_comm_below n (a / 2) (b / 2) (omega arith) (omega arith),
)

pub bit_xor_comm : (a b : ℕ) → bit_xor a b ≡ bit_xor b a
bit_xor_comm a b = bit_xor_comm_below (a + b) a b (omega arith) (omega arith)

pub bit_xor-lt : (k a b : ℕ) → a < 2 ^ k → b < 2 ^ k → bit_xor a b < 2 ^ k
bit_xor-lt zero zero zero ha hb = omega arith
bit_xor-lt zero zero (suc b) ha hb = absurd (omega arith)
bit_xor-lt zero (suc a) b ha hb = absurd (omega arith)
bit_xor-lt (suc k) a b ha hb = omega (
  arith,
  pow-suc 2 k,
  bit_xor_step a b,
  differ_digits a b,
  bit_xor-lt k (a / 2) (b / 2) (omega (arith, pow-suc 2 k)) (omega (arith, pow-suc 2 k)),
)

bit_xor_cancel_below : (n a b : ℕ) → a ≤ n → b ≤ n → bit_xor a (bit_xor a b) ≡ b
bit_xor_cancel_below zero zero zero ha hb = refl
bit_xor_cancel_below zero zero (suc b) ha hb = absurd (omega arith)
bit_xor_cancel_below zero (suc a) b ha hb = absurd (omega arith)
bit_xor_cancel_below (suc n) a b ha hb =
    let deeper = bit_xor_cancel_below n (a / 2) (b / 2) (omega arith) (omega arith) in
    let (rest, digit) = bit_xor_parts a b in
    bit_xor_step a (bit_xor a b) ∙ rw (rest, digit) (omega (arith, deeper, differ_digits a b))

pub bit_xor_cancel : (a b : ℕ) → bit_xor a (bit_xor a b) ≡ b
bit_xor_cancel a b = bit_xor_cancel_below (a + b) a b (omega arith) (omega arith)

pub bit_and-zero : (a : ℕ) → bit_and a 0 ≡ 0
bit_and-zero a = go a a (omega arith)
  where
    go : (n a : ℕ) → a ≤ n → bit_and a 0 ≡ 0
    go n zero h = refl
    go zero (suc a) h = absurd (omega arith)
    go (suc n) (suc a) h = omega (arith, bit_and_step (suc a) 0, go n (suc a / 2) (omega arith))

pub zero-bit_or : (b : ℕ) → bit_or 0 b ≡ b
zero-bit_or b = bit_or-bitwise 0 b

pub bit_or-zero : (a : ℕ) → bit_or a 0 ≡ a
bit_or-zero a = go a a (omega arith)
  where
    go : (n a : ℕ) → a ≤ n → bit_or a 0 ≡ a
    go n zero h = refl
    go zero (suc a) h = absurd (omega arith)
    go (suc n) (suc a) h = omega (arith, bit_or_step (suc a) 0, go n (suc a / 2) (omega arith))

bit_or_comm_below : (n a b : ℕ) → a ≤ n → b ≤ n → bit_or a b ≡ bit_or b a
bit_or_comm_below zero zero zero ha hb = refl
bit_or_comm_below zero zero (suc b) ha hb = absurd (omega arith)
bit_or_comm_below zero (suc a) b ha hb = absurd (omega arith)
bit_or_comm_below (suc n) a b ha hb = omega (
  arith,
  bit_or_step a b,
  bit_or_step b a,
  bit_or_comm_below n (a / 2) (b / 2) (omega arith) (omega arith),
)

pub bit_or_comm : (a b : ℕ) → bit_or a b ≡ bit_or b a
bit_or_comm a b = bit_or_comm_below (a + b) a b (omega arith) (omega arith)
