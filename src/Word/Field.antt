-- ===== src/Word/Field.antt =====
-- Bit fields of a number, read and written digit by digit: the reference against which the byte
-- and mask arithmetic of the PDU code is proved.
use native.Mathlib.Nat.{pow-suc, one-le-pow, div-div-eq-div-mul}
use dse_modelc.Base.{
  ℕ, zero, suc, ◌+◌, ◌*◌, ◌/◌, ◌%◌, ◌^◌, ◌≤◌, ◌<◌, ◌≡◌, refl, sym, ap, ◌∙◌, arith,
}

-- x >> s
unfoldable pub shift_right : ℕ → ℕ → ℕ
shift_right x zero = x
shift_right x (suc s) = shift_right (x / 2) s

-- The n bits of x from bit s on.
unfoldable pub field : ℕ → ℕ → ℕ → ℕ
field x (suc s) n = field (x / 2) s n
field x zero (suc n) = x % 2 + 2 * field (x / 2) zero n
field x zero zero = 0

-- x with its n bits from bit s on replaced by the n low bits of v.
unfoldable pub splice : ℕ → ℕ → ℕ → ℕ → ℕ
splice x (suc s) n v = x % 2 + 2 * splice (x / 2) s n v
splice x zero (suc n) v = v % 2 + 2 * splice (x / 2) zero n (v / 2)
splice x zero zero v = x

pub digit_half : (d t : ℕ) → (d % 2 + 2 * t) / 2 ≡ t
digit_half d t = omega arith

digit_low : (d t : ℕ) → (d % 2 + 2 * t) % 2 ≡ d % 2
digit_low d t = omega arith

ruleset digits = (digit_half, digit_low)

-- A field that is written is what a read of the same bits gives.
pub field-splice : (s n x v : ℕ) → field (splice x s n v) s n ≡ field v 0 n
unfolding field splice
field-splice (suc s) n x v = rw digit_half (field-splice s n (x / 2) v)
field-splice zero (suc n) x v = simp (digits, field-splice zero n (x / 2) (v / 2))
field-splice zero zero x v = refl

-- Bits below the written field keep their values.
pub field-splice_below :
    (s n x v s' n' : ℕ) → s' + n' ≤ s → field (splice x s n v) s' n' ≡ field x s' n'
unfolding field splice
field-splice_below s n x v zero zero h = refl
field-splice_below (suc s) n x v (suc s') n' h =
    rw digit_half (field-splice_below s n (x / 2) v s' n' (omega arith))
field-splice_below zero n x v (suc s') n' h = absurd (omega arith)
field-splice_below (suc s) n x v zero (suc n') h =
    simp (digits, field-splice_below s n (x / 2) v zero n' (omega arith))
field-splice_below zero n x v zero (suc n') h = absurd (omega arith)

-- Bits above the written field keep their values.
pub field-splice_above :
    (s n x v s' n' : ℕ) → s + n ≤ s' → field (splice x s n v) s' n' ≡ field x s' n'
unfolding field splice
field-splice_above (suc s) n x v (suc s') n' h =
    rw digit_half (field-splice_above s n (x / 2) v s' n' (omega arith))
field-splice_above (suc s) n x v zero n' h = absurd (omega arith)
field-splice_above zero (suc n) x v (suc s') n' h =
    rw digit_half (field-splice_above zero n (x / 2) (v / 2) s' n' (omega arith))
field-splice_above zero (suc n) x v zero n' h = absurd (omega arith)
field-splice_above zero zero x v s' n' h = refl

-- Two adjacent fields are written in one go or one after the other.
pub splice-splice :
    (s a b c x v t : ℕ)
    → t ≡ s + a
    → c ≡ a + b
    → splice (splice x s a v) t b (shift_right v a) ≡ splice x s c v
unfolding splice shift_right
splice-splice (suc s) a b c x v (suc t) e f =
    simp (digits, splice-splice s a b c (x / 2) v t (omega arith) f)
splice-splice (suc s) a b c x v zero e f = absurd (omega arith)
splice-splice zero (suc a) b (suc c) x v (suc t) e f =
    simp (digits, splice-splice zero a b c (x / 2) (v / 2) t (omega arith) (omega arith))
splice-splice zero (suc a) b zero x v (suc t) e f = absurd (omega arith)
splice-splice zero (suc a) b c x v zero e f = absurd (omega arith)
splice-splice zero zero b c x v zero e f = let e' : b ≡ c = omega arith in rw e'
splice-splice zero zero b c x v (suc t) e f = absurd (omega arith)

-- Two adjacent fields read as one.
pub field-append :
    (s a b c x t : ℕ) → t ≡ s + a → c ≡ a + b → field x s c ≡ field x s a + 2 ^ a * field x t b
unfolding field
field-append (suc s) a b c x (suc t) e f = field-append s a b c (x / 2) t (omega arith) f
field-append (suc s) a b c x zero e f = absurd (omega arith)
field-append zero (suc a) b (suc c) x (suc t) e f = omega (
  arith,
  pow-suc 2 a,
  ap (λ (q : ℕ). q * field (x / 2) t b) (pow-suc 2 a),
  field-append zero a b c (x / 2) t (omega arith) (omega arith),
)
field-append zero (suc a) b zero x (suc t) e f = absurd (omega arith)
field-append zero (suc a) b c x zero e f = absurd (omega arith)
field-append zero zero b c x zero e f = let e' : c ≡ b = omega arith in rw e' (omega arith)
field-append zero zero b c x (suc t) e f = absurd (omega arith)

-- Only the low bits of the value matter.
pub splice-field : (s n m x v : ℕ) → n ≤ m → splice x s n (field v 0 m) ≡ splice x s n v
unfolding splice field
splice-field (suc s) n m x v h = rw (splice-field s n m (x / 2) v h)
splice-field zero (suc n) (suc m) x v h =
    simp (digits, splice-field zero n m (x / 2) (v / 2) (omega arith))
splice-field zero (suc n) zero x v h = absurd (omega arith)
splice-field zero zero m x v h = refl

mod_double : (x p : ℕ) → 0 < p → x % (p * 2) ≡ x % 2 + 2 * (x / 2 % p)
mod_double x p h = grind arith

pub div_double : (x p : ℕ) → x / 2 / p ≡ x / (p * 2)
div_double x p = div-div-eq-div-mul x 2 p ∙ ap (λ (t : ℕ). x / t) (omega arith)

div_unit : (y : ℕ) → y / 2 ^ 0 ≡ y
div_unit y = omega arith

-- The digit-wise reading is a shift and a remainder.
pub field-eq : (x s n : ℕ) → field x s n ≡ x / 2 ^ s % 2 ^ n
unfolding field
field-eq x (suc s) n =
    field-eq (x / 2) s n ∙ rw (pow-suc 2 s) (ap (λ (t : ℕ). t % 2 ^ n) (div_double x (2 ^ s)))
field-eq x zero (suc n) =
    let whole : x % (2 ^ n * 2) ≡ x % 2 + 2 * (x / 2 % 2 ^ n) =
      mod_double x (2 ^ n) (one-le-pow n 2 (omega arith)) in
    rw (pow-suc 2 n, field-eq (x / 2) zero n) (simp div_unit (sym whole))
field-eq x zero zero = omega arith

-- A number that fits n bits is its own field.
pub field_whole : (n x : ℕ) → x < 2 ^ n → field x 0 n ≡ x
unfolding field
field_whole zero x h = omega arith
field_whole (suc n) x h =
    omega (arith, pow-suc 2 n, field_whole n (x / 2) (omega (arith, pow-suc 2 n)))

pub field-lt : (x s n : ℕ) → field x s n < 2 ^ n
unfolding field
field-lt x (suc s) n = field-lt (x / 2) s n
field-lt x zero (suc n) = omega (arith, field-lt (x / 2) zero n, pow-suc 2 n)
field-lt x zero zero = omega arith

-- A field of the low bits is a field of the whole.
pub field-field : (n m x : ℕ) → n ≤ m → field (field x 0 m) 0 n ≡ field x 0 n
unfolding field
field-field (suc n) (suc m) x h = simp (digits, field-field n m (x / 2) (omega arith))
field-field (suc n) zero x h = absurd (omega arith)
field-field zero m x h = refl

-- A byte written over a byte, and an empty write.
pub splice_whole : (b v : ℕ) → b < 256 → splice b 0 8 v ≡ v % 256
unfolding splice
splice_whole b v h = omega arith

pub splice_none : (x s v : ℕ) → splice x s 0 v ≡ x
unfolding splice
splice_none x (suc s) v = omega (arith, splice_none (x / 2) s v)
splice_none x zero v = refl

pub shift_right-add : (x a b c : ℕ) → c ≡ a + b → shift_right (shift_right x a) b ≡ shift_right x c
unfolding shift_right
shift_right-add x (suc a) b (suc c) e = shift_right-add (x / 2) a b c (omega arith)
shift_right-add x (suc a) b zero e = absurd (omega arith)
shift_right-add x zero b c e = let e' : b ≡ c = omega arith in rw e'
