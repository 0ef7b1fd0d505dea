-- ===== src/Pdu/Pack/Payload.antt =====
-- A payload as one number, least significant byte first, and what a write through a mask does
-- to that number.
use Prim.Native.Nat.{bit_and}
use dse_modelc.Base.{
  ℕ, zero, suc, ◌+◌, ◌-◌, ◌*◌, ◌^◌, ◌≤◌, ◌<◌, ◌≡◌, refl, sym, ap, ◌∙◌, List, [], ◌∷◌, some, arith,
  length, get_elem?, set,
}
use dse_modelc.Word.{
  u8, IsBytes, field, splice, field-eq, field-lt, field-field, splice-field, splice-lt, splice_high,
  splice-splice, splice_whole, splice_none, shift_right, splice_low, mask_at, mask_at-lt,
  bit_and-low_mask, bit_and-not_mask, bit_or-splice,
}
use dse_modelc.Pdu.Pack.{put_bits, write_part}

unfoldable pub le_value : List ℕ → ℕ
le_value [] = 0
le_value (byte ∷ bytes) = byte + 2 ^ 8 * le_value bytes

u8-field : (x : ℕ) → u8 x ≡ field x 0 8
u8-field x = omega (arith, field-eq x 0 8)

u8_small : (x : ℕ) → x < 256 → u8 x ≡ x
u8_small x h = omega arith

pub shifted-le : (w n o : ℕ) → w < 2 ^ n → w * 2 ^ o ≤ mask_at n o
shifted-le w n o h = grind arith

-- The mask arithmetic writes the n low bits of the value at bit o of the byte.
pub put_bits-splice :
    (b o n value : ℕ) → o + n ≤ 8 → b < 256 → put_bits b o n value ≡ splice b o n value
unfolding put_bits
put_bits-splice b o n value h lt =
    let m_p : u8 (mask_at n o) ≡ mask_at n o = u8_small (mask_at n o) (mask_at-lt 8 o n h) in
    let m_v : u8 (2 ^ n - 1) ≡ 2 ^ n - 1 =
      u8_small (2 ^ n - 1) (omega (arith, mask_at-lt 8 0 n (omega arith))) in
    let low : bit_and (u8 value) (2 ^ n - 1) ≡ field value 0 n =
      rw (u8-field value, bit_and-low_mask n (field value 0 8))
        (field-field n 8 value (omega arith)) in
    let v : u8 (field value 0 n * 2 ^ o) ≡ field value 0 n * 2 ^ o =
      u8_small _ (
        omega (arith, mask_at-lt 8 o n h, shifted-le (field value 0 n) n o (field-lt value 0 n))) in
    rw (m_p, m_v, low, v, bit_and-not_mask 8 o n b h lt)
      (bit_or-splice o n b (field value 0 n) (field-lt value 0 n)
        ∙ splice-field o n n b value (omega arith))

-- `q` is the payload `p` with its n bits from bit t on replaced by those of v.
abbrev pub Written : List ℕ → ℕ → ℕ → ℕ → List ℕ → Type 0
Written p n t v q = IsBytes q × (length q ≡ length p) × (le_value q ≡ splice (le_value p) t n v)

write_part-cons :
    (b : ℕ) (p : List ℕ) (i o n v : ℕ) {q : List ℕ}
    → write_part p i o n v ≡ some q
    → write_part (b ∷ p) (suc i) o n v ≡ some (b ∷ q)
unfolding write_part
write_part-cons b p i o n v e = ground arith

cons-Written :
    (b n t s v : ℕ) (p q : List ℕ)
    → t ≡ 8 + s
    → b < 256
    → Written p n s v q
    → Written (b ∷ p) n t v (b ∷ q)
unfolding le_value
cons-Written b n t s v p q e hb (w, l, u) =
    ((hb, w), omega arith, rw u (sym (splice_high n v (le_value p) 8 s t b e hb)))

-- A write through a mask replaces the bits of the payload that it is meant to, and no others.
pub write_part-Written :
    (p : List ℕ) (i o n v t : ℕ)
    → t ≡ 8 * i + o
    → o + n ≤ 8
    → i < length p
    → IsBytes p
    → (q : List ℕ) × (write_part p i o n v ≡ some q) × Written p n t v q
unfolding write_part le_value
write_part-Written [] i o n v t e h lt w = absurd (omega arith)
write_part-Written (b ∷ p) zero o n v t e h lt w =
    let byte : put_bits b o n v ≡ splice b o n v = put_bits-splice b o n v h w.0 in
    let here : t ≡ o = omega arith in
    (
      put_bits b o n v ∷ p,
      refl,
      (
        (rw byte (splice-lt 8 o n b v h w.0), w.1),
        refl,
        rw (byte, here) (sym (splice_low (le_value p) 8 o n b v h w.0)),
      ),
    )
write_part-Written (b ∷ p) (suc i) o n v t e h lt w =
    let (q, run, written) =
      write_part-Written p i o n v (t - 8) (omega arith) h (omega arith) w.1 in
    (
      b ∷ q,
      write_part-cons b p i o n v run,
      cons-Written b n t (t - 8) v p q (omega arith) w.0 written,
    )

-- A whole byte needs no mask.
pub write_part-whole :
    (p : List ℕ) (i v : ℕ)
    → i < length p
    → IsBytes p
    → (b : ℕ) × (get_elem? p i ≡ some b) × (write_part p i 0 8 v ≡ some (set p i (u8 v)))
unfolding write_part
write_part-whole [] i v h w = absurd (omega arith)
write_part-whole (b ∷ p) zero v h w =
    (b, refl, ap (λ (x : ℕ). some (x ∷ p)) (put_bits-splice b 0 8 v (omega arith) w.0 ∙ whole))
  where
    whole : splice b 0 8 v ≡ u8 v
    whole = splice_whole b v w.0
write_part-whole (c ∷ p) (suc i) v h w =
    let (b, e, run) = write_part-whole p i v (omega arith) w.1 in
    (b, e, write_part-cons c p i 0 8 v run)

pub Written-refl : (p : List ℕ) (t v : ℕ) → IsBytes p → Written p 0 t v p
Written-refl p t v w = (w, refl, sym (splice_none (le_value p) t v))

-- Two adjacent writes are one.
pub Written-trans :
    (p q r : List ℕ) (a b c s t v : ℕ)
    → t ≡ s + a
    → c ≡ a + b
    → Written p a s v q
    → Written q b t (shift_right v a) r
    → Written p c s v r
Written-trans p q r a b c s t v e f (w, l, u) (w', l', u') =
    (w', l' ∙ l, u' ∙ rw u (splice-splice s a b c (le_value p) v t e f))
