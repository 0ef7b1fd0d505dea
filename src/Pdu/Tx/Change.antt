-- ===== src/Pdu/Tx/Change.antt =====
-- Which PDUs are sent: change detection by checksum, periodic schedules and rejecting scripts.
use dse_modelc.Base.{
  ℕ, ◌<◌, ◌^◌, ◌≡◌, ◌≢◌, ◌⊎◌, inl, inr, Bool-cases, ap, Bool, true, false, not, some, List, ◌∷◌,
  ◌++◌, arith, ◌==◌, if◌then◌else◌,
}
use dse_modelc.Word.{IsBytes, fnv_loop_one_byte}
use dse_modelc.Double.{Double}
use dse_modelc.Pdu.{Direction, Trigger, HeaderFormat, Clock, PduObject}
use dse_modelc.Pdu.Schedule.{restart, fires, schedule_tx, schedule_pdu}
use dse_modelc.Pdu.Schedule.Rows.{Fires, fires_iff}
use dse_modelc.Pdu.Script.{Scripts}
use dse_modelc.Pdu.Tx.{checksum, Visit, visit_needs_tx}

-- Two payloads that differ in exactly one byte have different checksums.
pub checksum-one_byte :
    (xs ys : List ℕ) (a b : ℕ)
    → a < 256
    → b < 256
    → IsBytes ys
    → a ≢ b
    → checksum (some (xs ++ a ∷ ys)) ≢ checksum (some (xs ++ b ∷ ys))
unfolding checksum
checksum-one_byte xs ys a b ha hb w ne =
    fnv_loop_one_byte 2166136261 xs ys a b (omega arith) ha hb w ne

absurd_bool : {A : Type 0} {b : Bool} → b ≡ true → b ≡ false → A
absurd_bool e f = absurd (ground arith)

-- A Tx PDU that is sent on its own and has no Tx script.
pub record IsPlainTx {D : Type 0} (o : PduObject D) : Type 0 where
  pub is_tx : o.item.dir ≡ Direction.tx
  pub no_header : o.header ≡ HeaderFormat.none
  pub alone : o.item.container_id ≡ 0
  pub no_script : o.tx_ref ≡ 0

module _ {D L : Type 0} (scripts : Scripts D L) where
  -- Without a script the visitor compares checksums, remembers the new one, and no more.
  plain_visit :
      (v : Visit D L)
      → IsPlainTx v.object
      → visit_needs_tx scripts v ≡ record v {
        object = record (v.object) {
          needs_tx = not (checksum v.payload == v.object.checksum);
          checksum = checksum v.payload;
        };
      }
  unfolding visit_needs_tx
  plain_visit v h = ground arith

  -- Once a plain Tx PDU has been visited, a visit with the same payload does not send it again,
  -- and a visit with a payload in which exactly one byte is another does.
  pub visit_needs_tx-change :
      (v : Visit D L) (xs ys : List ℕ) (a b : ℕ)
      → IsPlainTx v.object
      → v.payload ≡ some (xs ++ a ∷ ys)
      → a < 256
      → b < 256
      → IsBytes ys
      → a ≢ b
      → let o = (visit_needs_tx scripts v).object in
        ((visit_needs_tx scripts
            (record v { object = o; payload = some (xs ++ a ∷ ys) })).object.needs_tx
          ≡ false)
        × ((visit_needs_tx scripts
              (record v { object = o; payload = some (xs ++ b ∷ ys) })).object.needs_tx
            ≡ true)
  visit_needs_tx-change v xs ys a b h e ha hb w ne =
      let differ = checksum-one_byte xs ys a b ha hb w ne in
      let first = plain_visit v h in
      let o = (visit_needs_tx scripts v).object in
      let plain : IsPlainTx o = rw first (record {
        is_tx = h.is_tx;
        no_header = h.no_header;
        alone = h.alone;
        no_script = h.no_script;
      }) in
      let old : o.checksum ≡ checksum (some (xs ++ a ∷ ys)) = rw first (ap checksum e) in
      let again = plain_visit (record v { object = o; payload = some (xs ++ a ∷ ys) }) plain in
      let other = plain_visit (record v { object = o; payload = some (xs ++ b ∷ ys) }) plain in
      (rw again (ground arith), rw other (ground arith))

  periodic_object :
      (double : Double D) (clock : Clock D) (o : PduObject D) (skip : List Bool)
      → IsPlainTx o
      → o.trigger ≡ Trigger.periodic
      → o.interval ≢ 0
      → (schedule_pdu double clock o skip).0
        ≡ record o { checksum = if fires double clock o then 0 else o.checksum }
  unfolding schedule_pdu schedule_tx restart
  periodic_object double clock o skip h e ne = ground arith

  -- Either the schedule of a plain periodic PDU fires, and the PDU is sent, changed or not, if the
  -- checksum of its payload is not 0; or the schedule does not fire, and the PDU is sent only if
  -- the checksum of its payload has changed.
  pub periodic_needs_tx :
      (double : Double D) (clock : Clock D) (v : Visit D L) (skip : List Bool)
      → IsPlainTx v.object
      → v.object.trigger ≡ Trigger.periodic
      → v.object.interval ≢ 0
      → clock.simulation_time < 2 ^ 32
      → let o = (schedule_pdu double clock v.object skip).0 in
        let sent = (visit_needs_tx scripts (record v { object = o })).object.needs_tx in
        (Fires double clock v.object × (sent ≡ not (checksum v.payload == 0)))
        ⊎ ((¬ Fires double clock v.object) × (sent ≡ not (checksum v.payload == v.object.checksum)))
  periodic_needs_tx double clock v skip h e ne t =
      let o = (schedule_pdu double clock v.object skip).0 in
      let same = periodic_object double clock v.object skip h e ne in
      let plain : IsPlainTx o = rw same (record {
        is_tx = h.is_tx;
        no_header = h.no_header;
        alone = h.alone;
        no_script = h.no_script;
      }) in
      let visited = plain_visit (record v { object = o }) plain in
      let iff = fires_iff double clock v.object t (omega arith) in
      elim (Bool-cases (fires double clock v.object)) [
        | inl on ↦ inl (iff.0 on, rw visited (rw same (rw on)))
        | inr off ↦ inr (λ f. absurd_bool (iff.1 f) off, rw visited (rw same (rw off)))
      ]
