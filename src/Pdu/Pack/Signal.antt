-- ===== src/Pdu/Pack/Signal.antt =====
-- What packing and unpacking a signal promise, from dse/modelc/model/pdunet/matrix.c.
use dse_modelc.Base.{
  ℕ, ◌+◌, ◌*◌, ◌/◌, ◌%◌, ◌^◌, ◌≤◌, ◌≡◌, ◌⊎◌, inl, inr, sym, ap, ◌∙◌, List, some, arith, length,
  ◌>>=◌,
}
use dse_modelc.Word.{
  IsBytes, field, splice, field-eq, field-splice, field-splice_above, field-splice_below,
}
use dse_modelc.Pdu.Pack.Payload.{le_value}
use dse_modelc.Pdu.Pack.Write.{pack_signal-Written}
use dse_modelc.Pdu.Pack.Read.{unpack_signal-field}
use dse_modelc.Pdu.Pack.{pack_signal, unpack_signal}

-- A signal that lies within the payload can be packed, whatever its width and alignment. The
-- payload keeps its length, stays a list of bytes and, read as one little-endian number, has the
-- signal's bits replaced by the low bits of the raw value and every other bit unchanged.
pub pack_signal-splice :
    (start len raw : ℕ) (p : List ℕ)
    → IsBytes p
    → start + len ≤ 8 * length p
    → (q : List ℕ) × (pack_signal start len raw p ≡ some q)
      × IsBytes q
      × (length q ≡ length p)
      × (le_value q ≡ splice (le_value p) start len raw)
pack_signal-splice start len raw p w room =
    let (q, run, written) = pack_signal-Written start len raw p w room in
    (q, run, written.0, written.1, written.2)

-- A signal of at most 64 bits that lies within the payload unpacks to its bits, taken from the
-- payload read as one little-endian number.
pub unpack_signal-eq :
    (start len : ℕ) (p : List ℕ)
    → IsBytes p
    → start + len ≤ 8 * length p
    → len ≤ 64
    → unpack_signal start len p ≡ some (le_value p / 2 ^ start % 2 ^ len)
unpack_signal-eq start len p w room word =
    unpack_signal-field start len p w room word
    ∙ ap (λ (x : ℕ). some x) (field-eq (le_value p) start len)

-- What is packed is unpacked again, cut to the signal's width, for signals of at most 64 bits.
pub unpack_signal-pack_signal :
    (start len raw : ℕ) (p : List ℕ)
    → IsBytes p
    → start + len ≤ 8 * length p
    → len ≤ 64
    → (pack_signal start len raw p >>= unpack_signal start len) ≡ some (raw % 2 ^ len)
unpack_signal-pack_signal start len raw p w room word =
    let (q, run, w', l, u) = pack_signal-splice start len raw p w room in
    let unit : raw / 2 ^ 0 ≡ raw = omega arith in
    rw run (
      unpack_signal-field start len q w' (omega arith) word
      ∙ ap (λ (x : ℕ). some x)
          (rw u (field-splice start len (le_value p) raw) ∙ field-eq raw 0 len ∙ rw unit))

-- Packing one signal leaves every signal that shares no bit with it as it was.
pub unpack_signal-pack_signal_other :
    (start len raw start' len' : ℕ) (p : List ℕ)
    → IsBytes p
    → start + len ≤ 8 * length p
    → start' + len' ≤ 8 * length p
    → len' ≤ 64
    → (start' + len' ≤ start) ⊎ (start + len ≤ start')
    → (pack_signal start len raw p >>= unpack_signal start' len') ≡ unpack_signal start' len' p
unpack_signal-pack_signal_other start len raw start' len' p w room room' word apart =
    let (q, run, w', l, u) = pack_signal-splice start len raw p w room in
    rw run (
      unpack_signal-field start' len' q w' (omega arith) word
      ∙ ap (λ (x : ℕ). some x) (rw u (kept apart))
      ∙ sym (unpack_signal-field start' len' p w room' word))
  where
    kept :
        (start' + len' ≤ start) ⊎ (start + len ≤ start')
        → field (splice (le_value p) start len raw) start' len' ≡ field (le_value p) start' len'
    kept (inl h) = field-splice_below start len (le_value p) raw start' len' h
    kept (inr h) = field-splice_above start len (le_value p) raw start' len' h
