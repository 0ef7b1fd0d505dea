-- ===== src/Pdu/Tx.antt =====
-- Change detection and the Tx function: pdunet_checksum() of
-- dse/modelc/model/pdunet/network.c, and the visitors and pdunet_call_tx_func() of
-- dse/modelc/model/pdunet.c.
pub mod Change
use dse_modelc.Base.{
  ℕ, Bool, true, false, not, ◌||◌, Option, none, some, List, [], ◌∷◌, ◌≡◌, length, get_elem?, set,
  ◌==◌, if◌then◌else◌, ◌>>=◌,
}
use dse_modelc.Word.{fnv_loop}
use dse_modelc.Pdu.{Direction, PduObject, Net}
use dse_modelc.Pdu.Schedule.{is_container}
use dse_modelc.Pdu.Script.{Scripts, ScriptResult}

unfoldable pub checksum : Option (List ℕ) → ℕ
checksum none = 0
checksum (some payload) = fnv_loop 2166136261 payload

-- An object, its payload and the interpreter, as a visitor finds and leaves them.
pub record Visit (D L : Type 0) : Type 0 where
  pub object : PduObject D
  pub payload : Option (List ℕ)
  pub lua : L

-- A script that returns another value than 0 rejects the PDU.
abbrev pub after_call : {D L : Type 0} → Visit D L → ScriptResult L → Visit D L
after_call v r = record {
  object = if r.accepted then v.object else record (v.object) { needs_tx = false };
  payload = some r.payload;
  lua = r.lua;
}

module _ {D L : Type 0} (scripts : Scripts D L) where
  -- pdunet_call_tx_func(). A NULL payload is refused by pdunet_lua_pdu_call().
  unfoldable pub call_tx_func : Visit D L → Visit D L
  call_tx_func v = if not v.object.needs_tx || v.object.tx_ref == 0 then v else elim v.payload [
    | none ↦ record v { object = record (v.object) { needs_tx = false } }
    | some payload ↦ after_call v (scripts.pdu_call v.lua v.object.tx_ref payload)
  ]

  -- pdunet_visit_needs_tx()
  pub visit_needs_tx : Visit D L → Visit D L
  unfolding call_tx_func
  visit_needs_tx v = elim v.object.item.dir [
    | Direction.tx ↦
        if is_container v.object.header
        then v
        else if checksum v.payload == v.object.checksum
        then record v { object = record (v.object) { needs_tx = false } }
        else if v.object.item.container_id == 0
        then call_tx_func (record v {
          object = record (v.object) { needs_tx = true; checksum = checksum v.payload };
        })
        else record v { object = record (v.object) { needs_tx = true } }
    | _ ↦ record v { object = record (v.object) { needs_tx = false } }
  ]

  -- pdunet_visit_set_checksum(), with its assertion that a Tx PDU has a payload.
  pub visit_set_checksum : Visit D L → Option (Visit D L)
  visit_set_checksum v = elim v.object.item.dir [
    | Direction.tx ↦ elim v.payload [
      | none ↦ none
      | some payload ↦
          some (record v { object = record (v.object) { checksum = checksum (some payload) } })
    ]
    | _ ↦ some v
  ]

  pub visit_clear_update_flag : Visit D L → Visit D L
  visit_clear_update_flag v = record v { object = record (v.object) { update_signals = false } }

  pub visit_clear_tx_flag : Visit D L → Visit D L
  visit_clear_tx_flag v = record v { object = record (v.object) { needs_tx = false } }

  pub visit_clear_checksum : Visit D L → Visit D L
  visit_clear_checksum v = record v { object = record (v.object) { checksum = 0 } }

-- pdunet_visit(), for a visitor that works on its object, the object's payload and the
-- interpreter.
pub visit_objects :
    {D L : Type 0}
    → (Visit D L → Visit D L)
    → List (PduObject D)
    → List (Option (List ℕ))
    → L
    → List (PduObject D) × List (Option (List ℕ)) × L
visit_objects visit [] payloads lua = ([], payloads, lua)
visit_objects visit (o ∷ os) payloads lua =
    let v =
      visit
        (record { object = o; payload = get_elem? payloads o.pdu_idx >>= (λ p. p); lua = lua }) in
    let (os', payloads', lua') = visit_objects visit os (set payloads o.pdu_idx v.payload) v.lua in
    (v.object ∷ os', payloads', lua')

pub visit_net : {D L : Type 0} → (Visit D L → Visit D L) → Net D L → Net D L
unfolding visit_objects
visit_net visit net =
    let (pdus, payloads, lua) = visit_objects visit net.pdus net.payloads net.lua in
    record net { pdus = pdus; payloads = payloads; lua = lua }
