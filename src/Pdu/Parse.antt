-- ===== src/Pdu/Parse.antt =====
-- The PDUs of a network as they are read from its document: pdunet_parse_pdus(),
-- pdunet_pdu_generator() and pdunet_signal_generator() of dse/modelc/model/pdunet/network.c. A node
-- is what the document gives for the fields, `none` where a field is missing. The references of Lua
-- functions are those that the interpreter gives later, 0 for none.
pub mod Within
use dse_modelc.Base.{
  ℕ, ◌+◌, ◌*◌, ◌%◌, ◌^◌, Bool, true, false, not, ◌||◌, Option, none, some, List, [], ◌∷◌, ltb, ◌==◌,
  if◌then◌else◌,
}
use dse_modelc.Double.{Double}
use dse_modelc.Model.Schema.{load_uint}
use dse_modelc.Pdu.{Direction, Trigger, HeaderFormat, SignalItem, PduItem}

pub record SignalNode (D : Type 0) : Type 0 where
  pub has_name : Bool
  pub start : Option ℕ
  pub length : Option ℕ
  pub factor : Option D
  pub offset : Option D
  pub min : Option D
  pub max : Option D
  pub encode_ref : ℕ
  pub decode_ref : ℕ

pub record PduNode (D : Type 0) : Type 0 where
  pub id : Option ℕ
  pub length : Option ℕ
  pub dir : Option Direction
  pub container_header : Option HeaderFormat
  pub container_id : Option ℕ
  pub container_priority : Option ℕ
  pub schedule_phase : Option D
  pub schedule_interval : Option D
  pub schedule_trigger : Option Trigger
  pub encode_ref : ℕ
  pub decode_ref : ℕ
  pub tx_ref : ℕ
  pub rx_ref : ℕ
  pub signals : List (SignalNode D)

-- A field that is missing keeps its value.
abbrev pub or_default : {A : Type 0} → Option A → A → A
or_default none a = a
or_default (some b) a = b

module _ {D : Type 0} (double : Double D) (nan : D) where
  abbrev pub load_signal : SignalNode D → SignalItem D
  load_signal n = record {
    start_bit = load_uint 16 n.start 65535;
    length_bits = load_uint 16 n.length 0;
    factor = or_default n.factor nan;
    offset = or_default n.offset nan;
    min = or_default n.min nan;
    max = or_default n.max nan;
    encode_ref = n.encode_ref;
    decode_ref = n.decode_ref;
  }

  -- The bits of a PDU are counted in a uint32_t.
  unfoldable pub is_invalid : ℕ → SignalItem D → Bool
  is_invalid pdu_length s =
      double.eq s.factor double.zero
      || s.start_bit == 65535
      || s.length_bits == 0
      || ltb (pdu_length * 8 % 2 ^ 32) s.start_bit
      || ltb (pdu_length * 8 % 2 ^ 32) (s.start_bit + s.length_bits)

  -- A signal without a name is rejected by the caller.
  unfoldable pub signal_generator : ℕ → SignalNode D → Option (SignalItem D)
  signal_generator pdu_length n =
      if is_invalid pdu_length (load_signal n) || not n.has_name then none else some (load_signal n)

  unfoldable pub parse_signals : ℕ → List (SignalNode D) → List (SignalItem D)
  parse_signals pdu_length [] = []
  parse_signals pdu_length (n ∷ ns) = elim (signal_generator pdu_length n) [
    | none ↦ parse_signals pdu_length ns
    | some s ↦ s ∷ parse_signals pdu_length ns
  ]

  unfoldable pub pdu_generator : PduNode D → PduItem D
  pdu_generator n = record {
    id = load_uint 32 n.id 0;
    length = load_uint 32 n.length 0;
    dir = or_default n.dir Direction.none;
    container_header = or_default n.container_header HeaderFormat.none;
    container_id = load_uint 32 n.container_id 0;
    container_priority = load_uint 32 n.container_priority 0;
    schedule_phase = or_default n.schedule_phase double.zero;
    schedule_interval = or_default n.schedule_interval double.zero;
    schedule_trigger = or_default n.schedule_trigger Trigger.none;
    encode_ref = n.encode_ref;
    decode_ref = n.decode_ref;
    tx_ref = n.tx_ref;
    rx_ref = n.rx_ref;
    signals = parse_signals (load_uint 32 n.length 0) n.signals;
  }

  -- A PDU without an id is left out.
  unfoldable pub parse_pdus : List (PduNode D) → List (PduItem D)
  parse_pdus [] = []
  parse_pdus (n ∷ ns) =
      let p = pdu_generator n in let rest = parse_pdus ns in if p.id == 0 then rest else p ∷ rest
