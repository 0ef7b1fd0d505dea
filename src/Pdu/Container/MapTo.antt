-- ===== src/Pdu/Container/MapTo.antt =====
-- pdunet_visit_container_mapto(): the I-PDUs that need Tx, by priority, into their container. The
-- I-PDUs of a container are other PDUs than the container.
pub mod Fill
pub mod Taken
pub mod Chosen
pub mod Received
use dse_modelc.Base.{
  ℕ, ◌+◌, ◌-◌, Bool, true, false, not, ◌||◌, Option, some, List, [], ◌∷◌, ◌++◌, drop, length,
  get_elem?, set, replicate, ltb, if◌then◌else◌, ◌>>=◌,
}
use dse_modelc.Pdu.{Direction, HeaderFormat, MPduItem, PduObject, Net}
use dse_modelc.Pdu.Schedule.{is_container}
use dse_modelc.Pdu.Script.{Scripts}
use dse_modelc.Pdu.Tx.{checksum, Visit, call_tx_func}
use dse_modelc.Pdu.Matrix.{payload_at}
use dse_modelc.Pdu.Container.{header_length, header_len, header_bytes, write_bytes, read_bytes}

-- The variables of the loop over the I-PDUs of a container.
pub record Mapping (D L : Type 0) : Type 0 where
  pub pdus : List (PduObject D)
  pub payloads : List (Option (List ℕ))
  pub lua : L
  pub payload : List ℕ
  pub payload_offset : ℕ
  pub needs_tx : Bool

module _ {D L : Type 0} (scripts : Scripts D L) (format : HeaderFormat) (payload_len : ℕ) where
  -- Header and payload of an I-PDU at the offset.
  pub insert_pdu : MPduItem → PduObject D → List ℕ → Mapping D L → Option (Mapping D L)
  insert_pdu i o bytes m = do
    head ← write_bytes m.payload m.payload_offset (header_bytes format i.id o.item.length)
    body ← read_bytes bytes 0 (header_len format o.item.length)
    payload ← write_bytes head (m.payload_offset + header_length format) body
    some (record m {
      pdus = set m.pdus i.pdu (record o { needs_tx = false });
      payload = payload;
      payload_offset = m.payload_offset + header_length format + header_len format o.item.length;
      needs_tx = true;
    })

  -- After the Tx function of the I-PDU, which may have rejected it.
  pub insert_accepted : MPduItem → Visit D L → Mapping D L → Option (Mapping D L)
  insert_accepted i v m =
      let m' = record m {
        pdus = set m.pdus i.pdu v.object;
        payloads = set m.payloads v.object.pdu_idx v.payload;
        lua = v.lua;
      } in
      if not v.object.needs_tx
      then some m'
      else (v.payload >>= (λ bytes. insert_pdu i v.object bytes m'))

  -- One round of the loop.
  pub map_one : MPduItem → Mapping D L → Option (Mapping D L)
  map_one i m = get_elem? m.pdus i.pdu >>= (λ o.
      if not o.needs_tx
      then some m
      else if ltb (payload_len - m.payload_offset) (o.item.length + header_length format)
      then some (record m { pdus = set m.pdus i.pdu (record o { needs_tx = false; checksum = 0 }) })
      else (payload_at m.payloads o.pdu_idx >>= (λ bytes.
          read_bytes bytes 0 o.item.length >>= (λ whole.
            insert_accepted i
              (call_tx_func scripts (record {
                object = record o { checksum = checksum (some whole) };
                payload = some bytes;
                lua = m.lua;
              }))
              m))))

  pub map_items : List MPduItem → Mapping D L → Option (Mapping D L)
  map_items [] m = some m
  map_items (i ∷ is) m = map_one i m >>= map_items is

module _ {D L : Type 0} (scripts : Scripts D L) where
  -- The container itself, after the loop.
  finish : ℕ → Mapping D L → Net D L → Option (Net D L)
  finish idx m net = do
    c ← get_elem? m.pdus idx
    let v = call_tx_func scripts (record {
      object = record c { needs_tx = m.needs_tx };
      payload = some m.payload;
      lua = m.lua;
    })
    some (record net {
      pdus = set m.pdus idx v.object;
      payloads = set m.payloads c.pdu_idx v.payload;
      lua = v.lua;
    })

  pub container_mapto : ℕ → Net D L → Option (Net D L)
  unfolding finish
  container_mapto idx net = do
    c ← get_elem? net.pdus idx
    elim c.item.dir [
      | Direction.tx ↦
          if not (is_container c.header) || not c.needs_tx
          then some net
          else (payload_at net.payloads c.pdu_idx >>= (λ old.
              read_bytes old 0 c.item.length >>= (λ whole.
                map_items scripts c.header c.item.length c.pdu_list (record {
                  pdus = net.pdus;
                  payloads = net.payloads;
                  lua = net.lua;
                  payload = replicate (length whole) 0 ++ drop c.item.length old;
                  payload_offset = 0;
                  needs_tx = false;
                })
                >>= (λ m. finish idx m net))))
      | _ ↦ some net
    ]
