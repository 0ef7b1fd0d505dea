-- ===== src/Model/Signals.antt =====
-- The binary signals of a signal vector: dse/modelc/model/signal.c. A buffer is the list of its
-- bytes, NULL is `none`, and a code is an int as its bit pattern, with the errno numbers of Linux. dse_buffer_append() is given.
pub mod Stream
use dse_modelc.Base.{
  ℕ, ◌+◌, ◌-◌, ◌%◌, ◌^◌, ◌≤◌, ◌<◌, ◌≡◌, Bool, true, false, ◌&&◌, Option, none, some, List, [], ◌∷◌,
  ◌++◌, length, take, get_elem?, set, ltb, if◌then◌else◌,
}

-- `stream` is the position of the stream of the codec, while it is open.
pub record BinarySignal : Type 0 where
  pub binary : Option (List ℕ)
  pub length : ℕ
  pub buffer_size : ℕ
  pub reset_called : Bool
  pub stream : Option ℕ

abbrev pub bytes : Option (List ℕ) → List ℕ
bytes none = []
bytes (some b) = b

-- The bytes of the buffer that are in use.
abbrev pub content : BinarySignal → List ℕ
content s = take s.length (bytes s.binary)

-- dse_buffer_append(): the buffer, the bytes in use and its size, each before and after. As long as
-- the sum fits a uint32_t, the data follow the bytes that were in use.
pub record Buffers : Type 0 where
  pub append : Option (List ℕ) → ℕ → ℕ → List ℕ → Option (List ℕ) × ℕ × ℕ
  pub append_lem :
      (b : Option (List ℕ)) (n size : ℕ) (bs : List ℕ)
      → n ≤ length (bytes b)
      → n + length bs < 2 ^ 32
      → let r = append b n size bs in
        (r.1 ≡ n + length bs)
        × (n + length bs ≤ length (bytes r.0))
        × (take (n + length bs) (bytes r.0) ≡ take n (bytes b) ++ bs)

module _ (buffers : Buffers) where
  -- That reset was not called before is logged, and the data are appended.
  unfoldable pub binary_append : BinarySignal → List ℕ → BinarySignal
  binary_append s bs =
      let (b, n, size) = buffers.append s.binary s.length s.buffer_size bs in
      record s { binary = b; length = n; buffer_size = size }

-- What becomes of the codec's own state is given: `seek` is ncodec_seek() to 0 with
-- NCODEC_SEEK_RESET.
unfoldable pub binary_reset : (BinarySignal → BinarySignal) → BinarySignal → BinarySignal
binary_reset seek s = seek (record s { length = 0; reset_called = true })

unfoldable pub binary_release : (BinarySignal → BinarySignal) → BinarySignal → BinarySignal
binary_release seek s = record (binary_reset seek s) { binary = none; buffer_size = 0 }

pub record SignalVector : Type 0 where
  pub is_binary : Bool
  pub signals : List BinarySignal

-- The functions that a vector has; the length that is appended is a uint32_t.
pub record SignalVectorVtable : Type 0 where
  pub append : Option (BinarySignal → List ℕ → BinarySignal)
  pub reset : Option (BinarySignal → BinarySignal)
  pub release : Option (BinarySignal → BinarySignal)

abbrev pub minus_einval : ℕ
minus_einval = 2 ^ 32 - 22

abbrev pub minus_enosys : ℕ
minus_enosys = 2 ^ 32 - 38

-- The vtable that _add_sv() gives to a binary vector, and to one of scalars.
unfoldable pub binary_vtable : Buffers → (BinarySignal → BinarySignal) → SignalVectorVtable
binary_vtable buffers seek = record {
  append = some (binary_append buffers);
  reset = some (binary_reset seek);
  release = some (binary_release seek);
}

unfoldable pub scalar_vtable : SignalVectorVtable
scalar_vtable = record { append = some (λ s bs. s); reset = some (λ s. s); release = some (λ s. s) }

-- The guard that the functions share: the binary signal at the index.
unfoldable pub binary_signal : SignalVector → ℕ → Option BinarySignal
binary_signal sv index =
    if ltb index (length sv.signals) && sv.is_binary then get_elem? sv.signals index else none

-- A function of the vtable at a signal.
unfoldable pub call_vtable :
    SignalVector → ℕ → Option (BinarySignal → BinarySignal) → ℕ × SignalVector
call_vtable sv index f = elim (binary_signal sv index) [
  | none ↦ (minus_einval, sv)
  | some s ↦ elim f [
    | none ↦ (minus_enosys, sv)
    | some g ↦ (0, record sv { signals = set sv.signals index (g s) })
  ]
]

unfoldable pub signal_read : SignalVector → ℕ → ℕ × Option (List ℕ) × ℕ
signal_read sv index = elim (binary_signal sv index) [
  | none ↦ (minus_einval, none, 0)
  | some s ↦ (0, s.binary, s.length)
]

unfoldable pub signal_append : SignalVectorVtable → SignalVector → ℕ → List ℕ → ℕ × SignalVector
signal_append vtable sv index bs =
    call_vtable sv index
      (elim vtable.append [ none ↦ none | some f ↦ some (λ s. f s (take (length bs % 2 ^ 32) bs)) ])

unfoldable pub signal_reset : SignalVectorVtable → SignalVector → ℕ → ℕ × SignalVector
signal_reset vtable sv index = call_vtable sv index vtable.reset

unfoldable pub signal_release : SignalVectorVtable → SignalVector → ℕ → ℕ × SignalVector
signal_release vtable sv index = call_vtable sv index vtable.release

unfoldable pub signal_reset_called : SignalVector → ℕ → ℕ × Option Bool
signal_reset_called sv index = elim (binary_signal sv index) [
  | none ↦ (minus_einval, none)
  | some s ↦ (0, some s.reset_called)
]
