-- ===== src/Pdu/Container/MapFrom.antt =====
-- pdunet_visit_container_mapfrom() and pdunet_call_rx_func(): a received container into the I-PDUs
-- that it carries.
pub mod Frames
pub mod Loop
pub mod Bytes
pub mod Termination
use dse_modelc.Base.{
  ℕ, zero, suc, ◌+◌, ◌-◌, ◌++◌, Bool, true, false, not, ◌||◌, Option, none, some, List, [], ◌∷◌,
  length, get_elem?, set, take, ltb, leb, ◌==◌, if◌then◌else◌, ◌>>=◌,
}
use dse_modelc.Word.{u32, u64}
use dse_modelc.Pdu.{Direction, HeaderFormat, MPduItem, PduObject, Net}
use dse_modelc.Pdu.Schedule.{is_container}
use dse_modelc.Pdu.Script.{Scripts, ScriptResult}
use dse_modelc.Pdu.Matrix.{payload_at}
use dse_modelc.Pdu.Container.{header_length, read_header, write_bytes, read_bytes}

-- The variables of the loop that the I-PDUs change.
pub record Inbox (L : Type 0) : Type 0 where
  pub payloads : List (Option (List ℕ))
  pub lua : L
  -- The container's payload, which an Rx function may change in place.
  pub payload : List ℕ

-- A loop that is given some rounds: `running` when they are used up before it ends, `fault` when an
-- assertion or an access fails.
pub data Run (A : Type 0) : Type 0 where
  running fault : Run A
  ended : A → Run A

abbrev pub after_run : {A B : Type 0} → (A → B) → Run A → Run B
after_run f Run.running = Run.running
after_run f Run.fault = Run.fault
after_run f (Run.ended a) = Run.ended (f a)

abbrev pub attempt : {A B : Type 0} → Option A → (A → Run B) → Run B
attempt none f = Run.fault
attempt (some a) f = f a

module _ {D L : Type 0} (scripts : Scripts D L) (pdus : List (PduObject D)) where
  -- After the script: its bytes are those of the buffer.
  abbrev after_rx : ℕ → Inbox L → ScriptResult L → Option (Bool × Inbox L)
  after_rx offset b r = do
    payload ← write_bytes b.payload offset r.payload
    some (r.accepted, record b { lua = r.lua; payload = payload })

  -- The Rx function of an I-PDU on len bytes at the offset; an I-PDU without one takes what comes.
  -- The length is passed as uint32_t.
  pub call_rx_func : PduObject D → ℕ → ℕ → Inbox L → Option (Bool × Inbox L)
  call_rx_func o offset len b =
      if o.rx_ref == 0
      then some (true, b)
      else (read_bytes b.payload offset (u32 len)
          >>= (λ bytes. after_rx offset b (scripts.pdu_call b.lua o.rx_ref bytes)))

  -- pi_payload_len
  abbrev copy_len : PduObject D → ℕ → ℕ
  copy_len o len = if ltb len o.item.length then len else o.item.length

  -- memcpy to the payload of the I-PDU.
  pub copy_pdu : PduObject D → ℕ → ℕ → Inbox L → Option (Inbox L)
  copy_pdu o offset len b = do
    old ← payload_at b.payloads o.pdu_idx
    bytes ← read_bytes b.payload offset (copy_len o len)
    new ← write_bytes old 0 bytes
    some (record b { payloads = set b.payloads o.pdu_idx (some new) })

  -- Locate the I-PDU and copy the payload.
  pub deliver : List MPduItem → ℕ → ℕ → ℕ → Inbox L → Option (Inbox L)
  deliver [] id offset len b = some b
  deliver (i ∷ is) id offset len b = elim (i.id == id) [
    | false ↦ deliver is id offset len b
    | true ↦ get_elem? pdus i.pdu >>= (λ o. call_rx_func o offset len b >>= (λ r. elim r.0 [
      | false ↦ deliver is id offset len r.1
      | true ↦ copy_pdu o offset len r.1
    ]))
  ]

  -- The while loop.
  pub map_from : ℕ → HeaderFormat → List MPduItem → ℕ → ℕ → Inbox L → Run (Inbox L)
  map_from zero format items payload_len offset b = Run.running
  map_from (suc rounds) format items payload_len offset b = elim (ltb offset payload_len) [
    | false ↦ Run.ended b
    | true ↦ attempt (read_header format b.payload payload_len offset) (λ h.
        let start = u64 (offset + header_length format) in
        let end = u64 (start + h.1) in
        elim (h.0 == 0 || ltb payload_len end) [
          | true ↦ Run.ended b
          | false ↦
              attempt (deliver items h.0 start h.1 b)
                (λ b'. map_from rounds format items payload_len end b')
        ])
  ]

  -- The visitor, for the container at an index.
  pub container_mapfrom : ℕ → ℕ → Net D L → Run (Net D L)
  container_mapfrom rounds idx net = attempt (get_elem? pdus idx) (λ c. elim c.item.dir [
    | Direction.rx ↦
        if not (is_container c.header) || not c.update_signals
        then Run.ended net
        else attempt (payload_at net.payloads c.pdu_idx) (λ payload.
          after_run
            (λ b. record net { payloads = set b.payloads c.pdu_idx (some b.payload); lua = b.lua })
            (map_from rounds c.header c.pdu_list c.item.length 0
              (record { payloads = net.payloads; lua = net.lua; payload = payload })))
    | _ ↦ Run.ended net
  ])
