-- ===== src/Word/Fnv.antt =====
-- The FNV-1a round that the signal UIDs and the PDU checksums share.
use Prim.Native.Nat.{bit_xor}
use dse_modelc.Base.{ℕ, ◌*◌, ◌%◌, ◌^◌, ◌<◌, ◌≡◌, List, [], ◌∷◌, ◌++◌, ◌≢◌, All, arith, ap, sym, ◌∙◌}
use dse_modelc.Word.Bits.{bit_xor-lt, bit_xor_cancel, bit_xor_comm}

-- h = h ^ byte; h = h * FNV_PRIME; on uint32_t.
unfoldable pub fnv_round : ℕ → ℕ → ℕ
fnv_round h byte = bit_xor h byte * 16777619 % 2 ^ 32

pub fnv_round-lt : (h byte : ℕ) → fnv_round h byte < 2 ^ 32
unfolding fnv_round
fnv_round-lt h byte = omega arith

-- The prime is odd, so the product can be divided out again.
prime_inverse : (x : ℕ) → x < 2 ^ 32 → x * 16777619 % 2 ^ 32 * 899433627 % 2 ^ 32 ≡ x
prime_inverse x h = omega arith

prime_injective :
    (x y : ℕ) → x < 2 ^ 32 → y < 2 ^ 32 → x * 16777619 % 2 ^ 32 ≡ y * 16777619 % 2 ^ 32 → x ≡ y
prime_injective x y hx hy e =
    sym (prime_inverse x hx) ∙ ap (λ (t : ℕ). t * 899433627 % 2 ^ 32) e ∙ prime_inverse y hy

-- Two different bytes take one state to two states.
pub fnv_round_byte :
    (h a b : ℕ) → h < 2 ^ 32 → a < 256 → b < 256 → fnv_round h a ≡ fnv_round h b → a ≡ b
unfolding fnv_round
fnv_round_byte h a b hh ha hb e =
    let same : bit_xor h a ≡ bit_xor h b =
      prime_injective (bit_xor h a) (bit_xor h b) (bit_xor-lt 32 h a hh (omega arith))
        (bit_xor-lt 32 h b hh (omega arith)) e in
    sym (bit_xor_cancel h a) ∙ ap (bit_xor h) same ∙ bit_xor_cancel h b

-- One byte takes two different states to two states.
pub fnv_round_state :
    (g h a : ℕ) → g < 2 ^ 32 → h < 2 ^ 32 → a < 256 → fnv_round g a ≡ fnv_round h a → g ≡ h
unfolding fnv_round
fnv_round_state g h a hg hh ha e =
    let same : bit_xor g a ≡ bit_xor h a =
      prime_injective (bit_xor g a) (bit_xor h a) (bit_xor-lt 32 g a hg (omega arith))
        (bit_xor-lt 32 h a hh (omega arith)) e in
    let same' : bit_xor a g ≡ bit_xor a h = bit_xor_comm a g ∙ same ∙ bit_xor_comm h a in
    sym (bit_xor_cancel a g) ∙ ap (bit_xor a) same' ∙ bit_xor_cancel a h

-- The loop over the bytes.
unfoldable pub fnv_loop : ℕ → List ℕ → ℕ
fnv_loop h [] = h
fnv_loop h (byte ∷ bytes) = fnv_loop (fnv_round h byte) bytes

pub fnv_loop-lt : (h : ℕ) (bytes : List ℕ) → h < 2 ^ 32 → fnv_loop h bytes < 2 ^ 32
unfolding fnv_loop
fnv_loop-lt h [] hh = hh
fnv_loop-lt h (byte ∷ bytes) hh = fnv_loop-lt (fnv_round h byte) bytes (fnv_round-lt h byte)

abbrev pub IsBytes : List ℕ → Type 0
IsBytes = All (λ b. b < 256)

pub fnv_loop_state :
    (g h : ℕ) (bytes : List ℕ)
    → g < 2 ^ 32
    → h < 2 ^ 32
    → IsBytes bytes
    → fnv_loop g bytes ≡ fnv_loop h bytes
    → g ≡ h
unfolding fnv_loop
fnv_loop_state g h [] hg hh w e = e
fnv_loop_state g h (b ∷ bytes) hg hh w e = fnv_round_state g h b hg hh w.0 (
    fnv_loop_state (fnv_round g b) (fnv_round h b) bytes (fnv_round-lt g b) (fnv_round-lt h b) w.1
      e)

-- Two texts that differ in one byte have different hashes.
pub fnv_loop_one_byte :
    (h : ℕ) (xs ys : List ℕ) (a b : ℕ)
    → h < 2 ^ 32
    → a < 256
    → b < 256
    → IsBytes ys
    → a ≢ b
    → fnv_loop h (xs ++ a ∷ ys) ≢ fnv_loop h (xs ++ b ∷ ys)
unfolding fnv_loop
fnv_loop_one_byte h [] ys a b hh ha hb w ne e = ne (
    fnv_round_byte h a b hh ha hb
      (fnv_loop_state (fnv_round h a) (fnv_round h b) ys (fnv_round-lt h a) (fnv_round-lt h b) w e))
fnv_loop_one_byte h (x ∷ xs) ys a b hh ha hb w ne e =
    fnv_loop_one_byte (fnv_round h x) xs ys a b (fnv_round-lt h x) ha hb w ne e
