-- ===== src/Pdu/Schedule.antt =====
-- pdunet_schedule() of dse/modelc/model/pdunet/network.c: which PDUs and signals a Tx step works on.
pub mod Rows
use dse_modelc.Base.{
  ℕ, zero, suc, ◌+◌, ◌-◌, ◌%◌, ◌^◌, Bool, true, false, not, ◌&&◌, List, [], ◌∷◌, length, set, ltb,
  leb, ◌==◌, if◌then◌else◌,
}
use dse_modelc.Double.{Double}
use dse_modelc.Pdu.{Direction, Trigger, HeaderFormat, Clock, PduObject, Net}

abbrev pub is_container : HeaderFormat → Bool
is_container HeaderFormat.none = false
is_container _ = true

-- skip_vec[offset + i] = value for i < count.
pub set_skip : List Bool → ℕ → ℕ → Bool → List Bool
set_skip skip offset zero value = skip
set_skip skip offset (suc count) value = set_skip (set skip offset value) (offset + 1) count value

-- A periodic PDU forgets its checksum, which forces the Tx.
unfoldable pub restart : {D : Type 0} → Trigger → PduObject D → PduObject D
restart Trigger.periodic o = record o { checksum = 0 }
restart _ o = o

module _ {D : Type 0} (double : Double D) where
  -- int32_t base, as its bit pattern.
  pub schedule_base : Clock D → PduObject D → ℕ
  schedule_base clock o =
      let epoch_offset =
        if double.eq clock.step_size double.zero
        then 0
        else double.to_i32 (double.div clock.epoch_offset clock.step_size) in
      (epoch_offset + o.phase) % 2 ^ 32

  -- The two tests after which the PDU does not fire: a base below 0 or in the future, and a time
  -- that is no multiple of the interval from it.
  pub fires : Clock D → PduObject D → Bool
  fires clock o =
      let base = schedule_base clock o in
      let delta = (clock.simulation_time + 2 ^ 32 - base) % 2 ^ 32 in
      ltb base (2 ^ 31) && leb base clock.simulation_time && delta % o.interval == 0

  pub enable : PduObject D → List Bool → List Bool
  enable o skip = set_skip skip o.range_offset o.range_count false

  unfoldable pub schedule_tx : Clock D → PduObject D → List Bool → PduObject D × List Bool
  unfolding enable
  schedule_tx clock o skip =
      if o.interval == 0
      then if is_container o.header
        then (record o { needs_tx = true }, skip)
        else (o, enable o skip)
      else if fires clock o
      then if is_container o.header
        then (record o { needs_tx = true }, skip)
        else (restart o.trigger o, enable o skip)
      else (o, skip)

  -- One round of the loop over the PDU objects.
  unfoldable pub schedule_pdu : Clock D → PduObject D → List Bool → PduObject D × List Bool
  schedule_pdu clock o skip = elim o.item.dir [
    | Direction.tx ↦ schedule_tx clock o skip
    | _ ↦ (o, skip)
  ]

  pub schedule_loop : Clock D → List (PduObject D) → List Bool → List (PduObject D) × List Bool
  schedule_loop clock [] skip = ([], skip)
  schedule_loop clock (o ∷ os) skip =
      let (o', skip') = schedule_pdu clock o skip in
      let (os', skip'') = schedule_loop clock os skip' in (o' ∷ os', skip'')

  pub schedule : {L : Type 0} → Net D L → Net D L
  schedule net =
      let (pdus, skip) =
        schedule_loop net.clock net.pdus (set_skip net.skip 0 (length net.skip) true) in
      record net { pdus = pdus; skip = skip }
