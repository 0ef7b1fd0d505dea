-- ===== src/Pdu/Matrix/Transform.antt =====
-- The signal matrix built from the parsed network: pdunet_matrix_transform() of
-- dse/modelc/model/pdunet/matrix.c. vector_sort() is a parameter. The row number of a signal is its
-- position in the list of rows.
pub mod Rows
use dse_modelc.Base.{
  ℕ, zero, suc, ◌+◌, ◌-◌, ◌%◌, ◌^◌, Bool, true, false, not, ◌&&◌, Option, none, some, List, [], ◌∷◌,
  ◌++◌, map, length, replicate, ltb, ◌==◌, if◌then◌else◌,
}
use dse_modelc.Double.{Double}
use dse_modelc.Pdu.{
  Direction, Trigger, HeaderFormat, SignalItem, PduItem, PduObject, Clock, Row, Range, Net,
}

-- PDU -> matrix.pdu
abbrev pub make_object : {D : Type 0} → PduItem D → PduObject D
make_object p = record {
  item = p;
  needs_tx = false;
  update_signals = false;
  checksum = 0;
  pdu_idx = 0;
  range_offset = 0;
  range_count = length p.signals;
  header = p.container_header;
  pdu_list = [];
  interval = 0;
  phase = 0;
  trigger = Trigger.none;
  encode_ref = p.encode_ref;
  decode_ref = p.decode_ref;
  tx_ref = p.tx_ref;
  rx_ref = p.rx_ref;
}

-- An int32_t within an interval, made absolute to the epoch. The remainders are of uint32_t.
unfoldable pub absolute_phase : ℕ → ℕ → ℕ
absolute_phase phase interval =
    if ltb 0 phase && ltb phase (2 ^ 31)
    then (interval + phase % interval) % 2 ^ 32
    else (interval + (2 ^ 32 - ((2 ^ 32 - phase) % 2 ^ 32) % interval)) % 2 ^ 32

module _ {D : Type 0} (double : Double D) (step_size : D) where
  unfoldable pub object_interval : PduItem D → ℕ
  object_interval p =
      if double.lt double.zero p.schedule_interval
      then double.to_u32 (double.div p.schedule_interval step_size)
      else 0

  unfoldable pub object_phase : PduItem D → ℕ → ℕ
  object_phase p interval =
      if not (double.eq p.schedule_phase double.zero) && not (interval == 0)
      then absolute_phase (double.to_i32 (double.div p.schedule_phase step_size)) interval
      else 0

  -- Set the schedule, and the place in the matrix.
  abbrev pub place_object : ℕ → ℕ → PduObject D → PduObject D
  place_object pdu_idx signal_offset o = record o {
    pdu_idx = pdu_idx;
    range_offset = signal_offset;
    interval = object_interval o.item;
    phase = object_phase o.item (object_interval o.item);
    trigger = o.item.schedule_trigger;
  }

  -- Signal -> matrix.signal, from a signal index on.
  abbrev pub signal_rows : ℕ → ℕ → List (SignalItem D) → List (Row D)
  signal_rows pdu_idx sig_idx [] = []
  signal_rows pdu_idx sig_idx (s ∷ ss) =
      record {
        pdu_idx = pdu_idx;
        signal_idx = sig_idx;
        phys = double.zero;
        raw = 0;
        factor = s.factor;
        offset = s.offset;
        min = s.min;
        max = s.max;
        encode = s.encode_ref;
        decode = s.decode_ref;
        start_bit = s.start_bit;
        length_bits = s.length_bits;
      }
      ∷ signal_rows pdu_idx (sig_idx + 1) ss

  unfoldable pub place_objects : ℕ → ℕ → List (PduObject D) → List (PduObject D) × List (Row D)
  place_objects pdu_idx signal_offset [] = ([], [])
  place_objects pdu_idx signal_offset (o ∷ os) =
      let rest = place_objects (pdu_idx + 1) (signal_offset + length o.item.signals) os in
      (
        place_object pdu_idx signal_offset o ∷ rest.0,
        signal_rows pdu_idx 0 o.item.signals ++ rest.1,
      )

-- _initialise_pdu()
abbrev pub new_payload : {D : Type 0} → PduObject D → Option (List ℕ)
new_payload o = if o.item.length == 0 then none else some (replicate o.item.length 0)

abbrev pub same_direction : Direction → Direction → Bool
same_direction Direction.none Direction.none = true
same_direction Direction.rx Direction.rx = true
same_direction Direction.tx Direction.tx = true
same_direction _ _ = false

-- The range that is pending, if it has signals and a direction.
unfoldable pub emit : Direction → ℕ → ℕ → List ℕ → List Range
emit d offset count pdu_list =
    if ltb 0 count && not (same_direction d Direction.none)
    then record { dir = d; offset = offset; length = count; pdu_list = pdu_list } ∷ []
    else []

-- Range objects.
unfoldable pub make_ranges :
    {D : Type 0} → Direction → ℕ → ℕ → List ℕ → List (PduObject D) → List Range
make_ranges d offset count pdu_list [] = emit d offset count pdu_list
make_ranges d offset count pdu_list (o ∷ os) = elim (same_direction o.item.dir d) [
  | true ↦ make_ranges d offset (count + o.range_count) (pdu_list ++ o.pdu_idx ∷ []) os
  | false ↦
      emit d offset count pdu_list
      ++ make_ranges o.item.dir (offset + count) o.range_count (o.pdu_idx ∷ []) os
]

module _ {D L : Type 0} (double : Double D) (sort : List (PduObject D) → List (PduObject D)) where
  unfoldable pub matrix_transform : List (PduItem D) → Net D L → Net D L
  matrix_transform items net =
      let placed = place_objects double net.clock.step_size 0 0 (sort (map make_object items)) in
      record net {
        pdus = placed.0;
        rows = placed.1;
        skip = map (λ r. false) placed.1;
        payloads = map new_payload placed.0;
        ranges = make_ranges Direction.none 0 0 [] placed.0;
      }
