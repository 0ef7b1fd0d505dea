-- ===== src/Word.antt =====
-- Machine words as native numbers: the widths that the C code uses, with wrap-around written out.
mod Bits
mod Field
mod Mask
mod Concat
mod Fnv
pub use Bits.*
pub use Field.*
pub use Mask.*
pub use Concat.*
unfoldable pub use Fnv.*
use dse_modelc.Base.{ℕ, ◌%◌, ◌*◌, ◌/◌, ◌^◌}

-- Casts to uint8_t, uint32_t and uint64_t.
abbrev pub u8 : ℕ → ℕ
u8 x = x % 256

abbrev pub u32 : ℕ → ℕ
u32 x = x % 2 ^ 32

abbrev pub u64 : ℕ → ℕ
u64 x = x % 2 ^ 64
