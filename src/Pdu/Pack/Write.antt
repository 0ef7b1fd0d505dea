-- ===== src/Pdu/Pack/Write.antt =====
-- pdunet_pdu_pack_range(), Tx: the loop over the bits of a signal writes one bit field.
use dse_modelc.Base.{
  ℕ, zero, suc, ◌+◌, ◌-◌, ◌*◌, ◌/◌, ◌%◌, ◌^◌, ◌≤◌, ◌<◌, ◌≡◌, ◌⊎◌, inl, inr, refl, sym, ap, ◌∙◌,
  List, some, arith, true, false, length, get_elem?, set, ltb, Bool-cases, some_cancel, ◌==◌,
}
use mathlib.Core.Path.{subst}
use dse_modelc.Word.{IsBytes, u8, shift_right, shift_right-eq, shift_right-add}
use dse_modelc.Pdu.Pack.Payload.{
  Written, write_part-Written, write_part-whole, Written-refl, Written-trans,
}
use dse_modelc.Pdu.Pack.{
  Cursor, first_bits, write_part, write_first, write_byte, write_whole, write_last, pack_signal,
}

write_whole-next :
    (rounds len : ℕ) (c : Cursor) {b : ℕ}
    → ltb (c.bit_count + 8) len ≡ true
    → get_elem? c.payload c.byte_idx ≡ some b
    → write_whole (suc rounds) len c ≡ write_whole rounds len (write_byte c)
unfolding write_whole
write_whole-next rounds len c t e = rw (t, e, write_whole)

write_whole-stop :
    (rounds len : ℕ) (c : Cursor)
    → ltb (c.bit_count + 8) len ≡ false
    → write_whole (suc rounds) len c ≡ some c
unfolding write_whole
write_whole-stop rounds len c t = rw (t, write_whole)

module _ (start len raw : ℕ) (p : List ℕ) (bytes : IsBytes p)
    (room : start + len ≤ 8 * length p) where
  -- The bits that the cursor counts are written, and it stands at a byte boundary unless it is done.
  record Progress (c : Cursor) : Type 0 where
    written : Written p c.bit_count start raw c.payload
    rest : c.value ≡ shift_right raw c.bit_count
    bounded : c.bit_count ≤ len
    aligned : (8 * c.byte_idx ≡ start + c.bit_count) ⊎ (c.bit_count ≡ len)

  next_value :
      (c : Cursor) (n : ℕ)
      → c.value ≡ shift_right raw c.bit_count
      → c.value / 2 ^ n ≡ shift_right raw (c.bit_count + n)
  next_value c n e =
      sym (shift_right-eq c.value n)
      ∙ ap (λ (x : ℕ). shift_right x n) e
      ∙ shift_right-add raw c.bit_count n (c.bit_count + n) refl

  -- A write of n more bits at bit o of the current byte.
  more :
      (c : Cursor) (o n m : ℕ)
      → Written p c.bit_count start raw c.payload
      → c.value ≡ shift_right raw c.bit_count
      → 8 * c.byte_idx + o ≡ start + c.bit_count
      → o + n ≤ 8
      → m ≡ c.bit_count + n
      → m ≤ len
      → c.byte_idx < length p
      → (q : List ℕ) × (write_part c.payload c.byte_idx o n c.value ≡ some q)
        × Written p m start raw q
  more c o n m g v at fits e le pos =
      let (q, run, w) =
        write_part-Written c.payload c.byte_idx o n c.value (start + c.bit_count) (sym at) fits
          (omega (arith, g.1)) g.0 in
      (
        q,
        run,
        Written-trans p c.payload q c.bit_count n m start (start + c.bit_count) raw refl e g
            (rw (← v) w),
      )

  write_byte-Progress :
      (c : Cursor)
      → Progress c
      → c.bit_count + 8 < len
      → Progress (write_byte c) × ((b : ℕ) × (get_elem? c.payload c.byte_idx ≡ some b))
  write_byte-Progress c g lt =
      let at : 8 * c.byte_idx ≡ start + c.bit_count = ground (arith, g.aligned) in
      let (q, run, w) =
        more c 0 8 (c.bit_count + 8) g.written g.rest (omega arith) (omega arith) refl (omega arith)
          (omega arith) in
      let (b, here, run') =
        write_part-whole c.payload c.byte_idx c.value (omega (arith, g.written.1)) g.written.0 in
      let same : some q ≡ some (set c.payload c.byte_idx (u8 c.value)) = sym run ∙ run' in
      (
        record {
          written = subst (Written p (c.bit_count + 8) start raw) (some_cancel same) w;
          rest = next_value c 8 g.rest;
          bounded = omega arith;
          aligned = inl (omega arith);
        },
        (b, here),
      )

  write_whole-Progress :
      (rounds : ℕ) (c : Cursor)
      → len < c.bit_count + rounds
      → Progress c
      → (c' : Cursor) × (write_whole rounds len c ≡ some c')
        × Progress c'
        × (len ≤ c'.bit_count + 8)
  write_whole-Progress zero c h g = absurd (omega (arith, g.bounded))
  write_whole-Progress (suc rounds) c h g = elim (Bool-cases (ltb (c.bit_count + 8) len)) [
    | inl more_left ↦
        let (g', here) = write_byte-Progress c g (ground arith) in
        let (c', run, g'', near) = write_whole-Progress rounds (write_byte c) (omega arith) g' in
        (c', write_whole-next rounds len c more_left here.1 ∙ run, g'', near)
    | inr done ↦ (c, write_whole-stop rounds len c done, g, ground arith)
  ]

  abbrev initial : Cursor
  initial = record { payload = p; byte_idx = start / 8; bit_count = 0; value = raw }

  initial-Written : Written p 0 start raw p
  initial-Written = Written-refl p start raw bytes

  after_first :
      (q : List ℕ) (n : ℕ)
      → Written p n start raw q
      → n ≤ len
      → (8 * (start / 8 + 1) ≡ start + n) ⊎ (n ≡ len)
      → Progress
          (record { payload = q; byte_idx = start / 8 + 1; bit_count = 0 + n; value = raw / 2 ^ n })
  after_first q n w bound edge =
      let counted : 0 + n ≡ n = omega arith in
      record {
        written = rw counted w;
        rest = next_value initial n (omega (arith, shift_right-eq raw 0));
        bounded = omega arith;
        aligned = ground arith;
      }

  write_first-Progress : (c : Cursor) × (write_first start len initial ≡ some c) × Progress c
  unfolding write_first
  write_first-Progress = elim (Bool-cases (start % 8 == 0)) [
    | inl whole ↦ (
      initial,
      rw (whole, write_first),
      record {
        written = initial-Written;
        rest = omega (arith, shift_right-eq raw 0);
        bounded = omega arith;
        aligned = inl (ground arith);
      },
    )
    | inr part ↦
        let o = start % 8 in
        let n = first_bits start len in
        let (q, run, w) =
          more initial o n n initial-Written (omega (arith, shift_right-eq raw 0)) (omega arith)
            (ground arith) (omega arith) (ground arith) (ground arith) in
        let bound : n ≤ len = ground arith in
        let edge : (8 * (start / 8 + 1) ≡ start + n) ⊎ (n ≡ len) = ground arith in
        (
          record { payload = q; byte_idx = start / 8 + 1; bit_count = 0 + n; value = raw / 2 ^ n },
          rw (part, write_first, run) refl,
          after_first q n w bound edge,
        )
  ]

  write_last-Written :
      (c : Cursor)
      → Progress c
      → len ≤ c.bit_count + 8
      → (q : List ℕ) × (write_last len c ≡ some q) × Written p len start raw q
  unfolding write_last
  write_last-Written c g near = elim (Bool-cases (ltb c.bit_count len)) [
    | inl short ↦
        let (q, run, w) =
          more c 0 (len - c.bit_count) len g.written g.rest (ground (arith, g.aligned))
            (omega arith) (ground arith) (omega arith) (ground arith) in
        (q, rw short run, w)
    | inr done ↦
        let whole : c.bit_count ≡ len = ground (arith, g.bounded) in
        (c.payload, rw (done, write_last) refl, rw (← whole) g.written)
  ]

  -- Any signal that lies within the payload can be packed, and exactly its bits change.
  pub pack_signal-Written :
      (q : List ℕ) × (pack_signal start len raw p ≡ some q) × Written p len start raw q
  unfolding pack_signal
  pack_signal-Written =
      let (c, run, g) = write_first-Progress in
      let (c', run', g', near) = write_whole-Progress (len + 1) c (omega arith) g in
      let (q, run'', w) = write_last-Written c' g' near in (q, rw (run, run', run'') refl, w)
