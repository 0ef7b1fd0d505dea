-- ===== src/Word/Mask.antt =====
-- Masks and shifts as operations on bit fields.
use native.Mathlib.Nat.{pow-suc, one-le-pow}
use Prim.Native.Nat.{bit_and, bit_or}
use dse_modelc.Base.{ℕ, zero, suc, ◌+◌, ◌-◌, ◌*◌, ◌/◌, ◌%◌, ◌^◌, ◌≤◌, ◌<◌, ◌≡◌, ap, ◌∙◌, arith}
use dse_modelc.Word.Bits.{bit_and_step, bit_or_step, bit_and-zero, bit_or-zero, zero-bit_or}
use dse_modelc.Word.Field.{field, splice, shift_right, div_double, digit_half, field_whole}

two_pow_pos : (n : ℕ) → 0 < 2 ^ n
two_pow_pos n = one-le-pow n 2 (omega arith)

-- The operations on a number that is given by its lowest digit and the rest.
half_even : (m : ℕ) → 2 * m / 2 ≡ m
half_even m = omega arith

half_odd : (m : ℕ) → (1 + 2 * m) / 2 ≡ m
half_odd m = omega arith

bit_and-even : (x m : ℕ) → bit_and x (2 * m) ≡ 2 * bit_and (x / 2) m
bit_and-even x m = bit_and_step x (2 * m) ∙ rw (half_even m) (omega arith)

bit_and-odd : (x m : ℕ) → bit_and x (1 + 2 * m) ≡ x % 2 + 2 * bit_and (x / 2) m
bit_and-odd x m = bit_and_step x (1 + 2 * m) ∙ rw (half_odd m) (omega arith)

bit_or-even : (x m : ℕ) → bit_or x (2 * m) ≡ x % 2 + 2 * bit_or (x / 2) m
bit_or-even x m = bit_or_step x (2 * m) ∙ rw (half_even m) (omega arith)

even-bit_or : (x w : ℕ) → bit_or (2 * x) w ≡ w % 2 + 2 * bit_or x (w / 2)
even-bit_or x w = bit_or_step (2 * x) w ∙ rw (half_even x) (omega arith)

low_mask-suc : (n : ℕ) → 2 ^ suc n - 1 ≡ 1 + 2 * (2 ^ n - 1)
low_mask-suc n = omega (arith, pow-suc 2 n, two_pow_pos n)

-- x & ((1 << n) - 1)
pub bit_and-low_mask : (n x : ℕ) → bit_and x (2 ^ n - 1) ≡ field x 0 n
unfolding field
bit_and-low_mask zero x = bit_and-zero x
bit_and-low_mask (suc n) x =
    rw (low_mask-suc n, bit_and-odd x (2 ^ n - 1)) (omega (arith, bit_and-low_mask n (x / 2)))

pub shift_right-eq : (x n : ℕ) → shift_right x n ≡ x / 2 ^ n
unfolding shift_right
shift_right-eq x zero = omega arith
shift_right-eq x (suc n) = shift_right-eq (x / 2) n ∙ rw (pow-suc 2 n) (div_double x (2 ^ n))

-- (1 << n) - 1, shifted to bit s.
abbrev pub mask_at : ℕ → ℕ → ℕ
mask_at n s = (2 ^ n - 1) * 2 ^ s

-- The bits of a k-bit word outside a field.
abbrev pub outside : ℕ → ℕ → ℕ → ℕ
outside k n s = 2 ^ k - 1 - mask_at n s

mul-two-pow-suc : (w s : ℕ) → w * 2 ^ suc s ≡ 2 * (w * 2 ^ s)
mul-two-pow-suc w s = omega (arith, ap (λ (t : ℕ). w * t) (pow-suc 2 s))

pub mask_at-lt : (k s n : ℕ) → s + n ≤ k → mask_at n s < 2 ^ k
mask_at-lt (suc k) (suc s) n h =
    omega (arith, mul-two-pow-suc (2 ^ n - 1) s, pow-suc 2 k, mask_at-lt k s n (omega arith))
mask_at-lt zero (suc s) n h = absurd (omega arith)
mask_at-lt (suc k) zero (suc n) h =
    omega (arith, low_mask-suc n, pow-suc 2 k, mask_at-lt k zero n (omega arith))
mask_at-lt zero zero (suc n) h = absurd (omega arith)
mask_at-lt k zero zero h = omega (arith, two_pow_pos k)

outside-below : (k n s : ℕ) → s + n ≤ k → outside (suc k) n (suc s) ≡ 1 + 2 * outside k n s
outside-below k n s h =
    omega (arith, mul-two-pow-suc (2 ^ n - 1) s, pow-suc 2 k, two_pow_pos k, mask_at-lt k s n h)

outside-at : (k n : ℕ) → n ≤ k → outside (suc k) (suc n) 0 ≡ 2 * outside k n 0
outside-at k n h =
    omega (arith, pow-suc 2 n, pow-suc 2 k, two_pow_pos n, mask_at-lt k 0 n (omega arith))

-- Within k bits, `& ~mask` clears the field.
pub bit_and-not_mask :
    (k s n x : ℕ) → s + n ≤ k → x < 2 ^ k → bit_and x (outside k n s) ≡ splice x s n 0
unfolding splice
bit_and-not_mask (suc k) (suc s) n x h lt =
    rw (outside-below k n s (omega arith), bit_and-odd x (outside k n s))
      (omega (arith, bit_and-not_mask k s n (x / 2) (omega arith) (omega (arith, pow-suc 2 k))))
bit_and-not_mask zero (suc s) n x h lt = absurd (omega arith)
bit_and-not_mask (suc k) zero (suc n) x h lt =
    rw (outside-at k n (omega arith), bit_and-even x (outside k n 0))
      (omega (arith, bit_and-not_mask k zero n (x / 2) (omega arith) (omega (arith, pow-suc 2 k))))
bit_and-not_mask zero zero (suc n) x h lt = absurd (omega arith)
bit_and-not_mask k zero zero x h lt =
    let whole : outside k 0 0 ≡ 2 ^ k - 1 = omega arith in
    rw (whole, bit_and-low_mask k x) (field_whole k x lt)

-- `|` with a value at bit s fills a field that is clear.
pub bit_or-splice : (s n x w : ℕ) → w < 2 ^ n → bit_or (splice x s n 0) (w * 2 ^ s) ≡ splice x s n w
unfolding splice
bit_or-splice (suc s) n x w h =
    rw (mul-two-pow-suc w s, bit_or-even (x % 2 + 2 * splice (x / 2) s n 0) (w * 2 ^ s))
      (rw (digit_half x (splice (x / 2) s n 0)) (omega (arith, bit_or-splice s n (x / 2) w h)))
bit_or-splice zero (suc n) x w h =
    let clear : 0 + 2 * splice (x / 2) zero n 0 ≡ 2 * splice (x / 2) zero n 0 = omega arith in
    let unit : w * 1 ≡ w = omega arith in
    let unit' : w / 2 * 1 ≡ w / 2 = omega arith in
    rw (clear, unit, even-bit_or (splice (x / 2) zero n 0) w)
      (omega
        (arith, rw unit' at (bit_or-splice zero n (x / 2) (w / 2) (omega (arith, pow-suc 2 n)))))
bit_or-splice zero zero x w h =
    let none_left : w * 1 ≡ 0 = omega arith in rw (none_left, bit_or-zero x)

-- `|` above the bits of a number is a sum.
pub bit_or-above : (s x w : ℕ) → x < 2 ^ s → bit_or x (w * 2 ^ s) ≡ x + w * 2 ^ s
bit_or-above zero x w h =
    let empty : x ≡ 0 = omega arith in rw (empty, zero-bit_or (w * 1)) (omega arith)
bit_or-above (suc s) x w h =
    rw (mul-two-pow-suc w s, bit_or-even x (w * 2 ^ s))
      (omega (arith, bit_or-above s (x / 2) w (omega (arith, pow-suc 2 s))))
