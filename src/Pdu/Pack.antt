-- ===== src/Pdu/Pack.antt =====
-- One signal packed into a PDU payload and unpacked from it: the bodies of the two loops of
-- pdunet_pdu_pack_range() in dse/modelc/model/pdunet/matrix.c. An access outside the payload,
-- undefined in C, is `none`.
pub mod Payload
pub mod Write
pub mod Read
pub mod Signal
use Prim.Native.Nat.{bit_and, bit_or}
use dse_modelc.Base.{
  ℕ, zero, suc, ◌+◌, ◌-◌, ◌*◌, ◌/◌, ◌%◌, ◌^◌, true, false, Option, none, some, List, get_elem?, set,
  ltb, ◌==◌, if◌then◌else◌, ◌>>=◌, ◌≡◌, refl, [], ◌∷◌,
}
use dse_modelc.Word.{u8, u64}

-- The variables of the loop over the bits of one signal.
pub record Cursor : Type 0 where
  pub payload : List ℕ
  pub byte_idx : ℕ
  pub bit_count : ℕ
  pub value : ℕ

-- (byte & ~M_p) | V, for n bits at bit o.
pub put_bits : ℕ → ℕ → ℕ → ℕ → ℕ
put_bits byte o n value =
    let m_p = u8 ((2 ^ n - 1) * 2 ^ o) in
    let m_v = u8 (2 ^ n - 1) in
    let v = u8 (bit_and (u8 value) m_v * 2 ^ o) in bit_or (bit_and byte (255 - m_p)) v

pub write_part : List ℕ → ℕ → ℕ → ℕ → ℕ → Option (List ℕ)
write_part payload i o n value = do
  byte ← get_elem? payload i
  some (set payload i (put_bits byte o n value))

-- N of the first write: the bits up to the first byte boundary.
abbrev pub first_bits : ℕ → ℕ → ℕ
first_bits start length = if ltb length (8 - start % 8) then length else 8 - start % 8

pub write_first : ℕ → ℕ → Cursor → Option Cursor
write_first start length c =
    let o = start % 8 in
    let n = first_bits start length in
    if o == 0 then some c else do
      payload ← write_part c.payload c.byte_idx o n c.value
      some (record {
        payload = payload;
        byte_idx = c.byte_idx + 1;
        bit_count = c.bit_count + n;
        value = c.value / 2 ^ n;
      })

-- One round of the while loop: the next eight bits into a whole byte.
abbrev pub write_byte : Cursor → Cursor
write_byte c = record {
  payload = set c.payload c.byte_idx (u8 c.value);
  byte_idx = c.byte_idx + 1;
  bit_count = c.bit_count + 8;
  value = c.value / 2 ^ 8;
}

-- Whole bytes, while more than eight bits are left. `none` also if the rounds run out.
pub write_whole : ℕ → ℕ → Cursor → Option Cursor
write_whole zero length c = none
write_whole (suc rounds) length c = elim (ltb (c.bit_count + 8) length) [
  | true ↦ elim (get_elem? c.payload c.byte_idx) [
    | none ↦ none
    | some _ ↦ write_whole rounds length (write_byte c)
  ]
  | false ↦ some c
]

-- The last bits.
pub write_last : ℕ → Cursor → Option (List ℕ)
write_last length c =
    if ltb c.bit_count length
    then write_part c.payload c.byte_idx 0 (length - c.bit_count) c.value
    else some c.payload

-- The signal's raw value into the payload. Every round but the last advances by eight bits, so
-- `length + 1` rounds are enough.
pub pack_signal : ℕ → ℕ → ℕ → List ℕ → Option (List ℕ)
pack_signal start length raw payload = do
  first ←
      write_first start length
        (record { payload = payload; byte_idx = start / 8; bit_count = 0; value = raw })
  rest ← write_whole (length + 1) length first
  write_last length rest

-- (payload[i] >> o) & M_v
pub read_part : List ℕ → ℕ → ℕ → ℕ → Option ℕ
read_part payload i o n = do b ← get_elem? payload i; some (bit_and (b / 2 ^ o) (u8 (2 ^ n - 1)))

pub read_first : ℕ → ℕ → Cursor → Option Cursor
read_first start length c =
    let o = start % 8 in
    let n = first_bits start length in
    if o == 0 then some c else do
      v ← read_part c.payload c.byte_idx o n
      some (record {
        payload = c.payload;
        byte_idx = c.byte_idx + 1;
        bit_count = c.bit_count + n;
        value = v;
      })

abbrev pub read_byte : ℕ → Cursor → Cursor
read_byte b c = record {
  payload = c.payload;
  byte_idx = c.byte_idx + 1;
  bit_count = c.bit_count + 8;
  value = bit_or c.value (u64 (b * 2 ^ c.bit_count));
}

pub read_whole : ℕ → ℕ → Cursor → Option Cursor
read_whole zero length c = none
read_whole (suc rounds) length c = elim (ltb (c.bit_count + 8) length) [
  | true ↦ elim (get_elem? c.payload c.byte_idx) [
    | none ↦ none
    | some b ↦ read_whole rounds length (read_byte b c)
  ]
  | false ↦ some c
]

pub read_last : ℕ → Cursor → Option ℕ
read_last length c =
    if ltb c.bit_count length
    then (read_part c.payload c.byte_idx 0 (length - c.bit_count)
        >>= (λ v. some (bit_or c.value (u64 (v * 2 ^ c.bit_count)))))
    else some c.value

-- The signal's raw value out of the payload.
pub unpack_signal : ℕ → ℕ → List ℕ → Option ℕ
unpack_signal start length payload = do
  first ←
      read_first start length
        (record { payload = payload; byte_idx = start / 8; bit_count = 0; value = 0 })
  rest ← read_whole (length + 1) length first
  read_last length rest
