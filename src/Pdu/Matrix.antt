-- ===== src/Pdu/Matrix.antt =====
-- The range functions of dse/modelc/model/pdunet/matrix.c: the linear transform between physical
-- and raw values, and packing between raw values and payloads, over the rows of a range.
pub mod RoundTrip
pub mod Transform
use dse_modelc.Base.{
  ℕ, Bool, true, false, not, ◌&&◌, ◌||◌, Option, none, some, List, [], ◌∷◌, length, get_elem?, set,
  take, drop, ltb, ◌==◌, if◌then◌else◌, ◌>>=◌,
}
use dse_modelc.Double.{Double}
use dse_modelc.Pdu.{Direction, Row, Range, Net}
use dse_modelc.Pdu.Pack.{pack_signal, unpack_signal}
use dse_modelc.Pdu.Script.{Scripts, SignalResult}

-- vector_at(payload, idx); `none` if there is no such payload or it is NULL.
unfoldable pub payload_at : List (Option (List ℕ)) → ℕ → Option (List ℕ)
payload_at payloads idx = get_elem? payloads idx >>= (λ p. p)

module _ {D : Type 0} where
  unfoldable pub pack_row : Row D → List (Option (List ℕ)) → Option (List (Option (List ℕ)))
  pack_row r payloads = do
    p ← payload_at payloads r.pdu_idx
    q ← pack_signal r.start_bit r.length_bits r.raw p
    some (set payloads r.pdu_idx (some q))

  -- Pack from raw to payload.
  unfoldable pub pack_rows : List (Row D) → List (Option (List ℕ)) → Option (List (Option (List ℕ)))
  pack_rows [] payloads = some payloads
  pack_rows (r ∷ rs) payloads = pack_row r payloads >>= pack_rows rs

  pub unpack_row : List (Option (List ℕ)) → Row D → Option ℕ
  unpack_row payloads r = do
    p ← payload_at payloads r.pdu_idx
    unpack_signal r.start_bit r.length_bits p

  -- Unpack from payload to raw.
  pub unpack_rows : List (Row D) → List (Option (List ℕ)) → Option (List (Row D))
  unpack_rows [] payloads = some []
  unpack_rows (r ∷ rs) payloads = do
    raw ← unpack_row payloads r
    rest ← unpack_rows rs payloads
    some (record r { raw = raw } ∷ rest)

  abbrev pub in_range : Range → List (Row D) → List (Row D)
  in_range range rows = take range.length (drop range.offset rows)

module _ {D L : Type 0} (double : Double D) (scripts : Scripts D L) where
  abbrev above_max : Row D → D → Bool
  above_max r value = not (double.is_nan r.max) && double.lt r.max value

  abbrev below_min : Row D → D → Bool
  below_min r value = not (double.is_nan r.min) && double.lt value r.min

  abbrev no_linear : Row D → Bool
  no_linear r = double.is_nan r.factor || double.is_nan r.offset

  abbrev raw_of : Row D → D → ℕ
  raw_of r phys = double.to_u64 (double.div (double.sub phys r.offset) r.factor)

  abbrev phys_of : Row D → ℕ → D
  phys_of r raw = double.add (double.mul (double.of_u64 raw) r.factor) r.offset

  -- The Lua encode function of a signal, and the raw value again if it changed the physical one.
  encode_script : Row D → SignalResult D L → Row D
  encode_script r s =
      let given = record r { raw = s.raw } in
      let changed = record given { phys = s.phys } in
      if double.eq s.phys r.phys
      then given
      else if above_max r s.phys
      then changed
      else if below_min r s.phys
      then changed
      else if no_linear r
      then changed
      else record changed { raw = raw_of r s.phys }

  after_encode : Row D → SignalResult D L → Row D × Option (List ℕ) × L
  unfolding encode_script
  after_encode computed s = (encode_script computed s, s.payload, s.lua)

  -- One round of the Tx loop of pdunet_pdu_calculate_linear_range().
  unfoldable pub encode_row : Bool → Row D → Option (List ℕ) → L → Row D × Option (List ℕ) × L
  unfolding after_encode
  encode_row skip r payload lua =
      if skip
      then (r, payload, lua)
      else if above_max r r.phys
      then (r, payload, lua)
      else if below_min r r.phys
      then (r, payload, lua)
      else if no_linear r
      then (r, payload, lua)
      else if ltb 0 r.encode
      then after_encode (record r { raw = raw_of r r.phys })
          (scripts.signal_call lua r.encode r.phys (raw_of r r.phys) payload)
      else (record r { raw = raw_of r r.phys }, payload, lua)

  -- The Lua decode function of a signal, and the physical value if it changed the raw one.
  decode_script : Row D → SignalResult D L → Row D
  decode_script r s =
      let given = record r { phys = s.phys } in
      let changed = record given { raw = s.raw } in
      let value = phys_of r s.raw in
      if s.raw == r.raw
      then given
      else if no_linear r
      then changed
      else if above_max r value
      then changed
      else if below_min r value
      then changed
      else record changed { phys = value }

  decode_linear : Row D → Row D
  decode_linear r =
      let value = phys_of r r.raw in
      if no_linear r
      then r
      else if above_max r value
      then r
      else if below_min r value
      then r
      else record r { phys = value }

  after_decode : Row D → SignalResult D L → Row D × Option (List ℕ) × L
  unfolding decode_script decode_linear
  after_decode r s = (decode_linear (decode_script r s), s.payload, s.lua)

  -- One round of the Rx loop of pdunet_pdu_calculate_linear_range().
  pub decode_row : Row D → Option (List ℕ) → L → Row D × Option (List ℕ) × L
  unfolding after_decode decode_linear
  decode_row r payload lua =
      if ltb 0 r.decode
      then after_decode r (scripts.signal_call lua r.decode r.phys r.raw payload)
      else (decode_linear r, payload, lua)
