-- ===== src/Word/Concat.antt =====
-- Bit fields of a number that is put together from k low bits and a rest.
use native.Mathlib.Nat.{pow-suc}
use dse_modelc.Base.{ℕ, zero, suc, ◌+◌, ◌*◌, ◌/◌, ◌%◌, ◌^◌, ◌≤◌, ◌<◌, ◌≡◌, refl, ap, arith}
use dse_modelc.Word.Field.{field, splice}

concat_half : (k x r : ℕ) → (x + 2 ^ suc k * r) / 2 ≡ x / 2 + 2 ^ k * r
concat_half k x r = omega (arith, ap (λ (q : ℕ). q * r) (pow-suc 2 k))

concat_low : (k x r : ℕ) → (x + 2 ^ suc k * r) % 2 ≡ x % 2
concat_low k x r = omega (arith, ap (λ (q : ℕ). q * r) (pow-suc 2 k))

half-lt : (k x : ℕ) → x < 2 ^ suc k → x / 2 < 2 ^ k
half-lt k x h = omega (arith, pow-suc 2 k)

module _ (n v r : ℕ) where
  -- A write above the low bits is a write to the rest.
  pub splice_high :
      (k s t x : ℕ)
      → t ≡ k + s
      → x < 2 ^ k
      → splice (x + 2 ^ k * r) t n v ≡ x + 2 ^ k * splice r s n v
  unfolding splice
  splice_high (suc k) s (suc t) x e h =
      rw (concat_half k x r, concat_low k x r)
        (rw (splice_high k s t (x / 2) (omega arith) (half-lt k x h))
          (omega (arith, ap (λ (q : ℕ). q * splice r s n v) (pow-suc 2 k))))
  splice_high (suc k) s zero x e h = absurd (omega arith)
  splice_high zero s t x e h =
      let here : t ≡ s = omega arith in
      let empty : x ≡ 0 = omega arith in
      let rest : 0 + 1 * r ≡ r = omega arith in rw (here, empty, rest) (omega arith)

-- A write within the low bits leaves the rest.
pub splice_low :
    (r k s n x v : ℕ)
    → s + n ≤ k
    → x < 2 ^ k
    → splice (x + 2 ^ k * r) s n v ≡ splice x s n v + 2 ^ k * r
unfolding splice
splice_low r (suc k) (suc s) n x v e h =
    rw (concat_half k x r, concat_low k x r)
      (rw (splice_low r k s n (x / 2) v (omega arith) (half-lt k x h))
        (omega (arith, ap (λ (q : ℕ). q * r) (pow-suc 2 k))))
splice_low r zero (suc s) n x v e h = absurd (omega arith)
splice_low r (suc k) zero (suc n) x v e h = rw (concat_half k x r) (
    rw (splice_low r k zero n (x / 2) (v / 2) (omega arith) (half-lt k x h))
      (omega (arith, ap (λ (q : ℕ). q * r) (pow-suc 2 k))))
splice_low r zero zero (suc n) x v e h = absurd (omega arith)
splice_low r k zero zero x v e h = refl

-- The same for reads.
pub field_high : (k s t n x r : ℕ) → t ≡ k + s → x < 2 ^ k → field (x + 2 ^ k * r) t n ≡ field r s n
unfolding field
field_high (suc k) s (suc t) n x r e h =
    rw (concat_half k x r) (field_high k s t n (x / 2) r (omega arith) (half-lt k x h))
field_high (suc k) s zero n x r e h = absurd (omega arith)
field_high zero s t n x r e h =
    let here : t ≡ s = omega arith in
    let empty : x ≡ 0 = omega arith in
    let rest : 0 + 1 * r ≡ r = omega arith in rw (here, empty, rest)

pub field_low : (r k s n x : ℕ) → s + n ≤ k → x < 2 ^ k → field (x + 2 ^ k * r) s n ≡ field x s n
unfolding field
field_low r (suc k) (suc s) n x e h =
    rw (concat_half k x r) (field_low r k s n (x / 2) (omega arith) (half-lt k x h))
field_low r zero (suc s) n x e h = absurd (omega arith)
field_low r (suc k) zero (suc n) x e h =
    rw (concat_half k x r, concat_low k x r)
      (rw (field_low r k zero n (x / 2) (omega arith) (half-lt k x h)))
field_low r zero zero (suc n) x e h = absurd (omega arith)
field_low r k zero zero x e h = refl

-- A write within k bits stays within them.
pub splice-lt : (k s n x v : ℕ) → s + n ≤ k → x < 2 ^ k → splice x s n v < 2 ^ k
unfolding splice
splice-lt (suc k) (suc s) n x v e h =
    omega (arith, pow-suc 2 k, splice-lt k s n (x / 2) v (omega arith) (half-lt k x h))
splice-lt zero (suc s) n x v e h = absurd (omega arith)
splice-lt (suc k) zero (suc n) x v e h =
    omega (arith, pow-suc 2 k, splice-lt k zero n (x / 2) (v / 2) (omega arith) (half-lt k x h))
splice-lt zero zero (suc n) x v e h = absurd (omega arith)
splice-lt k zero zero x v e h = h
