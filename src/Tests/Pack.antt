-- ===== src/Tests/Pack.antt =====
-- Signals packed into small payloads.
use dse_modelc.Base.{
  ℕ, ◌/◌, ◌%◌, ◌^◌, ◌≡◌, inl, inr, refl, Option, some, List, [], ◌∷◌, length, map, arith, ◌>>=◌,
}
use dse_modelc.Word.{IsBytes, splice}
use dse_modelc.Pdu.{Row}
use dse_modelc.Pdu.Pack.{pack_signal, unpack_signal}
use dse_modelc.Pdu.Pack.Payload.{le_value}
use dse_modelc.Pdu.Pack.Signal.{pack_signal-splice, unpack_signal-eq, unpack_signal-pack_signal}
use dse_modelc.Pdu.Matrix.{payload_at}
use dse_modelc.Pdu.Matrix.{pack_rows, unpack_rows}
use dse_modelc.Pdu.Matrix.RoundTrip.{truncate, unpack_rows-pack_rows}
use dse_modelc.Tests.Common.{rest_row}

abbrev three_bytes : List ℕ
three_bytes = 255 ∷ 0 ∷ 170 ∷ []

three_bytes-IsBytes : IsBytes three_bytes
three_bytes-IsBytes = (omega arith, (omega arith, (omega arith, tt)))

pack_signal_example :
    (q : List ℕ) × (pack_signal 5 14 11213 three_bytes ≡ some q)
    × IsBytes q
    × (length q ≡ 3)
    × (le_value q ≡ splice (le_value three_bytes) 5 14 11213)
pack_signal_example = pack_signal-splice 5 14 11213 three_bytes three_bytes-IsBytes (omega arith)

unpack_signal_example :
    unpack_signal 5 14 three_bytes ≡ some (le_value three_bytes / 2 ^ 5 % 2 ^ 14)
unpack_signal_example =
    unpack_signal-eq 5 14 three_bytes three_bytes-IsBytes (omega arith) (omega arith)

packed_and_back_example :
    (pack_signal 5 14 11213 three_bytes >>= unpack_signal 5 14) ≡ some (11213 % 2 ^ 14)
packed_and_back_example =
    unpack_signal-pack_signal 5 14 11213 three_bytes three_bytes-IsBytes (omega arith) (omega arith)

abbrev two_rows : List (Row ℕ)
two_rows = rest_row ∷ record rest_row { start_bit = 12; raw = 5; length_bits = 4 } ∷ []

abbrev payloads : List (Option (List ℕ))
payloads = some three_bytes ∷ []

rows_example :
    (qs : List (Option (List ℕ))) × (pack_rows two_rows payloads ≡ some qs)
    × (unpack_rows two_rows qs ≡ some (map truncate two_rows))
unfolding payload_at
rows_example =
    unpack_rows-pack_rows two_rows payloads
      (
        (three_bytes, refl, three_bytes-IsBytes, omega arith, omega arith),
        ((three_bytes, refl, three_bytes-IsBytes, omega arith, omega arith), tt),
      )
      ((inr (inl (omega arith)), tt), (tt, tt))
