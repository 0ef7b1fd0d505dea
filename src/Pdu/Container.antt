-- ===== src/Pdu/Container.antt =====
-- Container PDUs: pdunet_visit_container_mapto() and pdunet_visit_container_mapfrom() of
-- dse/modelc/model/pdunet/network.c. Offsets and lengths are size_t, so sums are taken modulo
-- 2 ^ 64. An assertion that fails and an access outside a buffer are `none`, or `fault` in a loop.
pub mod Header
pub mod MapTo
pub mod MapFrom
use Prim.Native.Nat.{bit_or}
use dse_modelc.Base.{
  ℕ, zero, suc, ◌+◌, ◌-◌, ◌*◌, ◌/◌, ◌%◌, ◌^◌, ◌++◌, Bool, true, false, not, ◌&&◌, ◌||◌, Option,
  none, some, List, [], ◌∷◌, length, get_elem?, set, take, drop, replicate, ltb, leb, ◌==◌,
  if◌then◌else◌, ◌>>=◌,
}
use dse_modelc.Word.{u8, u32, u64}
use dse_modelc.Pdu.{Direction, HeaderFormat, MPduItem, PduItem, PduObject, Net}
use dse_modelc.Pdu.Schedule.{is_container}
use dse_modelc.Pdu.Script.{Scripts, ScriptResult}
use dse_modelc.Pdu.Tx.{checksum, Visit, call_tx_func}
use dse_modelc.Pdu.Matrix.{payload_at}

abbrev pub header_length : HeaderFormat → ℕ
header_length HeaderFormat.none = 0
header_length HeaderFormat.static = 0
header_length HeaderFormat.short = 4
header_length HeaderFormat.full = 8

-- memcpy(payload + offset, bytes, length bytes)
pub write_bytes : List ℕ → ℕ → List ℕ → Option (List ℕ)
write_bytes payload offset bytes =
    if leb (offset + length bytes) (length payload)
    then some (take offset payload ++ (bytes ++ drop (offset + length bytes) payload))
    else none

-- length bytes at payload + offset
pub read_bytes : List ℕ → ℕ → ℕ → Option (List ℕ)
read_bytes payload offset len =
    if leb (offset + len) (length payload) then some (take len (drop offset payload)) else none

-- The header of an I-PDU, and the length that it can hold.
unfoldable pub header_bytes : HeaderFormat → ℕ → ℕ → List ℕ
header_bytes HeaderFormat.short id len = u8 (id / 2 ^ 16) ∷ u8 (id / 2 ^ 8) ∷ u8 id ∷ u8 len ∷ []
header_bytes HeaderFormat.full id len =
    u8 (id / 2 ^ 24)
    ∷ u8 (id / 2 ^ 16)
    ∷ u8 (id / 2 ^ 8)
    ∷ u8 id
    ∷ u8 (len / 2 ^ 24)
    ∷ u8 (len / 2 ^ 16)
    ∷ u8 (len / 2 ^ 8)
    ∷ u8 len
    ∷ []
header_bytes _ id len = []

pub header_len : HeaderFormat → ℕ → ℕ
header_len HeaderFormat.short len = u8 len
header_len HeaderFormat.full len = u32 len
header_len _ len = len

-- payload[offset + i]
abbrev byte_at : List ℕ → ℕ → ℕ → Option ℕ
byte_at payload offset i = get_elem? payload (offset + i)

-- (a << 16) | (b << 8) | c, and with four bytes the same as a 32-bit pattern.
pub be_24 : ℕ → ℕ → ℕ → ℕ
be_24 a b c = bit_or (bit_or (a * 2 ^ 16) (b * 2 ^ 8)) c

unfoldable pub be_32 : ℕ → ℕ → ℕ → ℕ → ℕ
be_32 a b c d = bit_or (bit_or (bit_or (a * 2 ^ 24) (b * 2 ^ 16)) (c * 2 ^ 8)) d

-- An int that is assigned to a size_t: the sign is extended.
pub extend_sign : ℕ → ℕ
extend_sign x = if ltb x (2 ^ 31) then x else x + (2 ^ 64 - 2 ^ 32)

-- id and len of the header at an offset; both stay 0 where no header fits.
pub read_header : HeaderFormat → List ℕ → ℕ → ℕ → Option (ℕ × ℕ)
read_header HeaderFormat.short payload payload_len offset =
    let header = do
      a ← byte_at payload offset 0
      b ← byte_at payload offset 1
      c ← byte_at payload offset 2
      n ← byte_at payload offset 3
      some (be_24 a b c, n)
    in if leb 4 (payload_len - offset) then header else some (0, 0)
read_header HeaderFormat.full payload payload_len offset =
    let header = do
      a ← byte_at payload offset 0
      b ← byte_at payload offset 1
      c ← byte_at payload offset 2
      d ← byte_at payload offset 3
      k ← byte_at payload offset 4
      l ← byte_at payload offset 5
      m ← byte_at payload offset 6
      n ← byte_at payload offset 7
      some (be_32 a b c d, extend_sign (be_32 k l m n))
    in if leb 8 (payload_len - offset) then header else some (0, 0)
read_header _ payload payload_len offset = some (0, 0)
