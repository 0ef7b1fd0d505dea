-- ===== src/Pdu/Pack/Read.antt =====
-- pdunet_pdu_pack_range(), Rx: the loop over the bits of a signal reads one bit field.
use Prim.Native.Nat.{bit_or}
use dse_modelc.Base.{
  ℕ, zero, suc, ◌+◌, ◌-◌, ◌*◌, ◌/◌, ◌%◌, ◌^◌, ◌≤◌, ◌<◌, ◌≡◌, ◌⊎◌, inl, inr, refl, sym, ap, ◌∙◌,
  List, [], ◌∷◌, some, arith, true, false, length, get_elem?, ltb, Bool-cases, ◌==◌,
}
use dse_modelc.Word.{
  u8, u64, IsBytes, field, field-eq, field-lt, field-append, field_low, field_high, mask_at-lt,
  bit_and-low_mask, bit_or-above,
}
use dse_modelc.Pdu.Pack.Payload.{le_value, shifted-le}
use dse_modelc.Pdu.Pack.{
  Cursor, first_bits, read_part, read_first, read_byte, read_whole, read_last, unpack_signal,
}

u8_low_mask : (n : ℕ) → n ≤ 8 → u8 (2 ^ n - 1) ≡ 2 ^ n - 1
u8_low_mask n h = omega (arith, mask_at-lt 8 0 n (omega arith))

field-shift : (x o n : ℕ) → field (x / 2 ^ o) 0 n ≡ field x o n
field-shift x o n =
    let unit : x / 2 ^ o / 2 ^ 0 ≡ x / 2 ^ o = omega arith in
    field-eq (x / 2 ^ o) 0 n ∙ rw unit (sym (field-eq x o n))

-- A read through a mask is the field that it stands for.
pub read_part-field :
    (p : List ℕ) (i o n t : ℕ)
    → t ≡ 8 * i + o
    → o + n ≤ 8
    → i < length p
    → IsBytes p
    → read_part p i o n ≡ some (field (le_value p) t n)
unfolding read_part le_value
read_part-field [] i o n t e h lt w = absurd (omega arith)
read_part-field (b ∷ p) zero o n t e h lt w =
    let here : t ≡ o = omega arith in
    rw
      (
        here,
        u8_low_mask n (omega arith),
        bit_and-low_mask n (b / 2 ^ o),
        field-shift b o n,
        field_low (le_value p) 8 o n b h w.0,
      )
      refl
read_part-field (b ∷ p) (suc i) o n t e h lt w =
    read_part-field p i o n (t - 8) (omega arith) h (omega arith) w.1
    ∙ ap (λ (x : ℕ). some x) (sym (field_high 8 (t - 8) t n b (le_value p) (omega arith) w.0))

read_whole-next :
    (rounds len : ℕ) (c : Cursor) {b : ℕ}
    → ltb (c.bit_count + 8) len ≡ true
    → get_elem? c.payload c.byte_idx ≡ some b
    → read_whole (suc rounds) len c ≡ read_whole rounds len (read_byte b c)
unfolding read_whole
read_whole-next rounds len c t e = rw (t, e, read_whole)

read_whole-stop :
    (rounds len : ℕ) (c : Cursor)
    → ltb (c.bit_count + 8) len ≡ false
    → read_whole (suc rounds) len c ≡ some c
unfolding read_whole
read_whole-stop rounds len c t = rw (t, read_whole)

-- The byte that a whole-byte round reads.
byte_at :
    (p : List ℕ) (i t : ℕ)
    → t ≡ 8 * i
    → i < length p
    → IsBytes p
    → get_elem? p i ≡ some (field (le_value p) t 8)
unfolding le_value
byte_at [] i t e lt w = absurd (omega arith)
byte_at (b ∷ p) zero t e lt w =
    ap (λ (x : ℕ). some x)
      (omega (arith, w.0, field_low (le_value p) 8 0 8 b (omega arith) w.0, here, field-eq b 0 8))
  where
    here : field (b + 2 ^ 8 * le_value p) t 8 ≡ field (b + 2 ^ 8 * le_value p) 0 8
    here = let first : t ≡ 0 = omega arith in rw first
byte_at (b ∷ p) (suc i) t e lt w =
    byte_at p i (t - 8) (omega arith) (omega arith) w.1
    ∙ ap (λ (x : ℕ). some x) (sym (field_high 8 (t - 8) t 8 b (le_value p) (omega arith) w.0))

module _ (start len : ℕ) (p : List ℕ) (bytes : IsBytes p) (room : start + len ≤ 8 * length p)
    (word : len ≤ 64) where
  -- The cursor's value is the part of the field that it counts.
  record Progress (c : Cursor) : Type 0 where
    same : c.payload ≡ p
    part : c.value ≡ field (le_value p) start c.bit_count
    bounded : c.bit_count ≤ len
    aligned : (8 * c.byte_idx ≡ start + c.bit_count) ⊎ (c.bit_count ≡ len)

  -- The next n bits, added above those that are there.
  joined :
      (a n m : ℕ)
      → m ≡ a + n
      → m ≤ len
      → bit_or (field (le_value p) start a) (u64 (field (le_value p) (start + a) n * 2 ^ a))
        ≡ field (le_value p) start m
  joined a n m e h =
      let low = field (le_value p) start a in
      let high = field (le_value p) (start + a) n in
      let narrow : u64 (high * 2 ^ a) ≡ high * 2 ^ a = omega (
        arith,
        mask_at-lt 64 a n (omega arith),
        shifted-le high n a (field-lt (le_value p) (start + a) n),
      ) in
      rw (narrow, bit_or-above a low high (field-lt (le_value p) start a))
        (omega (arith, field-append start a n m (le_value p) (start + a) refl e))

  read_byte-Progress :
      (c : Cursor)
      → Progress c
      → c.bit_count + 8 < len
      → (b : ℕ) × (get_elem? c.payload c.byte_idx ≡ some b) × Progress (read_byte b c)
  read_byte-Progress c g lt =
      let at : start + c.bit_count ≡ 8 * c.byte_idx = ground (arith, g.aligned) in
      (
        field (le_value p) (start + c.bit_count) 8,
        rw g.same (byte_at p c.byte_idx (start + c.bit_count) at (omega arith) bytes),
        record {
          same = g.same;
          part = rw g.part (joined c.bit_count 8 (c.bit_count + 8) refl (omega arith));
          bounded = omega arith;
          aligned = inl (omega arith);
        },
      )

  read_whole-Progress :
      (rounds : ℕ) (c : Cursor)
      → len < c.bit_count + rounds
      → Progress c
      → (c' : Cursor) × (read_whole rounds len c ≡ some c') × Progress c' × (len ≤ c'.bit_count + 8)
  read_whole-Progress zero c h g = absurd (omega (arith, g.bounded))
  read_whole-Progress (suc rounds) c h g = elim (Bool-cases (ltb (c.bit_count + 8) len)) [
    | inl more_left ↦
        let (b, here, g') = read_byte-Progress c g (ground arith) in
        let (c', run, g'', near) = read_whole-Progress rounds (read_byte b c) (omega arith) g' in
        (c', read_whole-next rounds len c more_left here ∙ run, g'', near)
    | inr done ↦ (c, read_whole-stop rounds len c done, g, ground arith)
  ]

  abbrev initial : Cursor
  initial = record { payload = p; byte_idx = start / 8; bit_count = 0; value = 0 }

  after_first :
      (n : ℕ)
      → n ≤ len
      → (8 * (start / 8 + 1) ≡ start + n) ⊎ (n ≡ len)
      → Progress (record {
        payload = p;
        byte_idx = start / 8 + 1;
        bit_count = 0 + n;
        value = field (le_value p) start n;
      })
  after_first n bound edge =
      let counted : 0 + n ≡ n = omega arith in
      record { same = refl; part = rw counted; bounded = omega arith; aligned = ground arith }

  read_first-Progress : (c : Cursor) × (read_first start len initial ≡ some c) × Progress c
  unfolding read_first
  read_first-Progress = elim (Bool-cases (start % 8 == 0)) [
    | inl whole ↦ (
      initial,
      rw (whole, read_first),
      record {
        same = refl;
        part = omega (arith, field-lt (le_value p) start 0);
        bounded = omega arith;
        aligned = inl (ground arith);
      },
    )
    | inr part ↦
        let o = start % 8 in
        let n = first_bits start len in
        let run : read_part p (start / 8) o n ≡ some (field (le_value p) start n) =
          read_part-field p (start / 8) o n start (omega arith) (ground arith) (ground arith)
            bytes in
        let bound : n ≤ len = ground arith in
        let edge : (8 * (start / 8 + 1) ≡ start + n) ⊎ (n ≡ len) = ground arith in
        (
          record {
            payload = p;
            byte_idx = start / 8 + 1;
            bit_count = 0 + n;
            value = field (le_value p) start n;
          },
          rw (part, read_first, run) refl,
          after_first n bound edge,
        )
  ]

  read_last-field :
      (c : Cursor)
      → Progress c
      → len ≤ c.bit_count + 8
      → read_last len c ≡ some (field (le_value p) start len)
  unfolding read_last
  read_last-field c g near = elim (Bool-cases (ltb c.bit_count len)) [
    | inl short ↦
        let n = len - c.bit_count in
        let run : read_part c.payload c.byte_idx 0 n
            ≡ some (field (le_value p) (start + c.bit_count) n) =
          rw g.same (
            read_part-field p c.byte_idx 0 n (start + c.bit_count) (ground (arith, g.aligned))
              (omega arith) (ground (arith, g.aligned)) bytes) in
        rw (short, run)
          (ap (λ (x : ℕ). some x)
            (rw g.part (joined c.bit_count n len (ground arith) (omega arith))))
    | inr done ↦
        let whole : c.bit_count ≡ len = ground (arith, g.bounded) in
        rw (done, read_last) (ap (λ (x : ℕ). some x) (rw (← whole) g.part))
  ]

  -- Any signal of up to 64 bits that lies within the payload can be unpacked, and the result is
  -- its bits.
  pub unpack_signal-field : unpack_signal start len p ≡ some (field (le_value p) start len)
  unfolding unpack_signal
  unpack_signal-field =
      let (c, run, g) = read_first-Progress in
      let (c', run', g', near) = read_whole-Progress (len + 1) c (omega arith) g in
      rw (run, run') (read_last-field c' g' near)
