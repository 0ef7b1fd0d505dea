-- ===== src/Tests/Tx.antt =====
-- Schedules and change detection for one PDU.
use dse_modelc.Base.{
  ℕ, ◌≡◌, ◌≢◌, ◌↔◌, ◌⊎◌, refl, true, false, not, some, [], ◌∷◌, arith, get_elem?, ◌==◌,
}
use dse_modelc.Pdu.{Trigger, PduObject, Net}
use dse_modelc.Pdu.Schedule.{schedule, schedule_pdu}
use dse_modelc.Pdu.Schedule.Rows.{Fires, SomeEnables, schedule-enabled_iff}
use dse_modelc.Pdu.Tx.{checksum, Visit, visit_needs_tx}
use dse_modelc.Pdu.Tx.Change.{
  IsPlainTx, checksum-one_byte, visit_needs_tx-change, periodic_needs_tx,
}
use dse_modelc.Tests.Common.{whole, rejecting, rest_object, rest_row, start_clock}

abbrev periodic_object : PduObject ℕ
periodic_object = record rest_object {
  trigger = Trigger.periodic;
  interval = 10;
  range_count = 1;
  checksum = 1234;
}

abbrev net : Net ℕ Unit
net = record {
  clock = start_clock;
  pdus = periodic_object ∷ [];
  payloads = some (1 ∷ 2 ∷ []) ∷ [];
  ranges = [];
  rows = rest_row ∷ rest_row ∷ [];
  skip = true ∷ false ∷ [];
  lua = tt;
}

schedule_example :
    ((get_elem? (schedule whole net).skip 1 ≡ some false) ↔ SomeEnables whole net.clock net.pdus 1)
    × ((get_elem? (schedule whole net).skip 1 ≡ some true)
        ↔ ¬ SomeEnables whole net.clock net.pdus 1)
schedule_example = schedule-enabled_iff whole net 1 (omega arith) (omega arith)

checksum_example : checksum (some (1 ∷ 2 ∷ 3 ∷ [])) ≢ checksum (some (1 ∷ 5 ∷ 3 ∷ []))
checksum_example =
    checksum-one_byte (1 ∷ []) (3 ∷ []) 2 5 (omega arith) (omega arith) (omega arith, tt)
      (omega arith)

abbrev visit : Visit ℕ Unit
visit = record { object = periodic_object; payload = some (1 ∷ 2 ∷ []); lua = tt }

periodic_object-IsPlainTx : IsPlainTx periodic_object
periodic_object-IsPlainTx = record {
  is_tx = refl;
  no_header = refl;
  alone = refl;
  no_script = refl;
}

change_example :
    let o = (visit_needs_tx rejecting visit).object in
    ((visit_needs_tx rejecting
        (record visit { object = o; payload = some (1 ∷ 2 ∷ []) })).object.needs_tx
      ≡ false)
    × ((visit_needs_tx rejecting
          (record visit { object = o; payload = some (1 ∷ 3 ∷ []) })).object.needs_tx
        ≡ true)
change_example =
    visit_needs_tx-change rejecting visit (1 ∷ []) [] 2 3 periodic_object-IsPlainTx refl
      (omega arith) (omega arith) tt (omega arith)

abbrev script_visit : Visit ℕ Unit
script_visit = record visit { object = record periodic_object { tx_ref = 4 } }

periodic_example :
    let o = (schedule_pdu whole start_clock periodic_object []).0 in
    let sent = (visit_needs_tx rejecting (record visit { object = o })).object.needs_tx in
    (Fires whole start_clock periodic_object × (sent ≡ not (checksum visit.payload == 0)))
    ⊎ ((¬ Fires whole start_clock periodic_object)
        × (sent ≡ not (checksum visit.payload == periodic_object.checksum)))
periodic_example =
    periodic_needs_tx rejecting whole start_clock visit [] periodic_object-IsPlainTx refl
      (omega arith) (omega arith)
