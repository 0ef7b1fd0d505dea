-- ===== src/Pdu/Ranges.antt =====
-- The range functions of dse/modelc/model/pdunet/matrix.c over a network: _apply_range(),
-- pdunet_pdu_calculate_linear_range() and pdunet_pdu_pack_range(). A fault of the C code is `none`.
pub mod Skip
use dse_modelc.Base.{
  ℕ, ◌+◌, Bool, true, false, Option, none, some, List, [], ◌∷◌, ◌++◌, length, get_elem?, set, take,
  drop, ltb, ◌==◌, if◌then◌else◌, ◌>>=◌,
}
use dse_modelc.Double.{Double}
use dse_modelc.Pdu.{Direction, Row, Range, PduObject, Net}
use dse_modelc.Pdu.Script.{Scripts, ScriptResult}
use dse_modelc.Pdu.Matrix.{payload_at, pack_rows, unpack_rows, in_range, encode_row, decode_row}
use dse_modelc.Pdu.Matrix.Transform.{same_direction}

-- What a loop over rows works on besides them.
pub record Payloads (L : Type 0) : Type 0 where
  pub payloads : List (Option (List ℕ))
  pub lua : L

module _ {D L : Type 0} (double : Double D) (scripts : Scripts D L) where
  -- The Tx loop of pdunet_pdu_calculate_linear_range().
  unfoldable pub encode_rows : List Bool → List (Row D) → Payloads L → List (Row D) × Payloads L
  encode_rows skips [] b = ([], b)
  encode_rows [] (r ∷ rs) b = (r ∷ rs, b)
  encode_rows (skip ∷ skips) (r ∷ rs) b =
      let one = encode_row double scripts skip r (payload_at b.payloads r.pdu_idx) b.lua in
      let rest =
        encode_rows skips rs (record { payloads = set b.payloads r.pdu_idx one.1; lua = one.2 }) in
      (one.0 ∷ rest.0, rest.1)

  -- The Rx loop.
  unfoldable pub decode_rows : List (Row D) → Payloads L → List (Row D) × Payloads L
  decode_rows [] b = ([], b)
  decode_rows (r ∷ rs) b =
      let one = decode_row double scripts r (payload_at b.payloads r.pdu_idx) b.lua in
      let rest =
        decode_rows rs (record { payloads = set b.payloads r.pdu_idx one.1; lua = one.2 }) in
      (one.0 ∷ rest.0, rest.1)

  -- The rows of a range replaced.
  abbrev pub put_rows : Range → List (Row D) → List (Row D) → List (Row D)
  put_rows range rows new =
      take range.offset rows ++ (new ++ drop (range.offset + range.length) rows)

  abbrev pub with_rows : Net D L → Range → List (Row D) × Payloads L → Net D L
  with_rows net range result = record net {
    rows = put_rows range net.rows result.0;
    payloads = result.1.payloads;
    lua = result.1.lua;
  }

  unfoldable pub calculate_linear_range : Net D L → Range → Net D L
  calculate_linear_range net range =
      let rows = in_range range net.rows in
      let b : Payloads L = record { payloads = net.payloads; lua = net.lua } in
      elim range.dir [
        | Direction.tx ↦
            with_rows net range
              (encode_rows (take range.length (drop range.offset net.skip)) rows b)
        | Direction.rx ↦ with_rows net range (decode_rows rows b)
        | _ ↦ net
      ]

  -- The Lua encode or decode functions of the PDUs of a range. A NULL payload is refused by
  -- pdunet_lua_pdu_call().
  unfoldable pub call_pdus :
      (PduObject D → ℕ) → List (PduObject D) → List ℕ → Payloads L → Option (Payloads L)
  call_pdus ref pdus [] b = some b
  call_pdus ref pdus (idx ∷ idxs) b = get_elem? pdus idx >>= (λ o.
      if ltb 0 (ref o)
      then elim (payload_at b.payloads idx) [
        | none ↦ call_pdus ref pdus idxs b
        | some payload ↦
            let r = scripts.pdu_call b.lua (ref o) payload in
            call_pdus ref pdus idxs
              (record { payloads = set b.payloads idx (some r.payload); lua = r.lua })
      ]
      else call_pdus ref pdus idxs b)

  unfoldable pub pack_range : Net D L → Range → Option (Net D L)
  pack_range net range = elim range.dir [
    | Direction.tx ↦ pack_rows (in_range range net.rows) net.payloads >>= (λ payloads.
        call_pdus (λ o. o.encode_ref) net.pdus range.pdu_list
          (record { payloads = payloads; lua = net.lua })
        >>= (λ b. some (record net { payloads = b.payloads; lua = b.lua })))
    | Direction.rx ↦
        call_pdus (λ o. o.decode_ref) net.pdus range.pdu_list
          (record { payloads = net.payloads; lua = net.lua })
        >>= (λ b.
            unpack_rows (in_range range net.rows) b.payloads
            >>= (λ rows. some (with_rows net range (rows, b))))
    | _ ↦ some net
  ]

-- _apply_range() with no range given: all ranges of a direction, in order.
unfoldable pub apply_ranges :
    {D L : Type 0}
    → Direction
    → (Net D L → Range → Option (Net D L))
    → List Range
    → Net D L
    → Option (Net D L)
apply_ranges dir func [] net = some net
apply_ranges dir func (range ∷ ranges) net = elim (same_direction range.dir dir) [
  | true ↦ func net range >>= (λ net'. apply_ranges dir func ranges net')
  | false ↦ apply_ranges dir func ranges net
]

module _ {D L : Type 0} (double : Double D) (scripts : Scripts D L) where
  abbrev pub encode_linear : Net D L → Option (Net D L)
  encode_linear net =
      apply_ranges Direction.tx (λ n r. some (calculate_linear_range double scripts n r)) net.ranges
        net

  abbrev pub decode_linear_ranges : Net D L → Option (Net D L)
  decode_linear_ranges net =
      apply_ranges Direction.rx (λ n r. some (calculate_linear_range double scripts n r)) net.ranges
        net

  abbrev pub encode_pack : Net D L → Option (Net D L)
  encode_pack net = apply_ranges Direction.tx (pack_range double scripts) net.ranges net

  abbrev pub decode_unpack : Net D L → Option (Net D L)
  decode_unpack net = apply_ranges Direction.rx (pack_range double scripts) net.ranges net
