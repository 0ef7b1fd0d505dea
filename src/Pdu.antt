-- ===== src/Pdu.antt =====
-- The PDU network of dse/modelc/pdunet.h and dse/modelc/model/pdunet: the objects that its
-- operations work on. Names, log output, transport metadata and the parsed YAML are left out. A
-- pointer to a PDU object is its index in the matrix; the NCodec PDU of an object aliases the
-- payload of the same index.
pub mod Pack
pub mod Schedule
pub mod Script
pub mod Tx
pub mod Matrix
pub mod Ranges
pub mod Container
pub mod Parse
pub mod Cycle
use dse_modelc.Base.{ℕ, Bool, List, Option}

pub data Direction : Type 0 where
  none rx tx : Direction

pub data Trigger : Type 0 where
  none change periodic : Trigger

pub data HeaderFormat : Type 0 where
  none static short full : HeaderFormat

pub record SignalItem (D : Type 0) : Type 0 where
  pub start_bit : ℕ
  pub length_bits : ℕ
  pub factor : D
  pub offset : D
  pub min : D
  pub max : D
  pub encode_ref : ℕ
  pub decode_ref : ℕ

pub record PduItem (D : Type 0) : Type 0 where
  pub id : ℕ
  pub length : ℕ
  pub dir : Direction
  pub container_header : HeaderFormat
  pub container_id : ℕ
  pub container_priority : ℕ
  pub schedule_phase : D
  pub schedule_interval : D
  pub schedule_trigger : Trigger
  pub encode_ref : ℕ
  pub decode_ref : ℕ
  pub tx_ref : ℕ
  pub rx_ref : ℕ
  pub signals : List (SignalItem D)

-- An I-PDU in the list of its container: `pdu` is the object's index.
pub record MPduItem : Type 0 where
  pub id : ℕ
  pub priority : ℕ
  pub pdu : ℕ

pub record PduObject (D : Type 0) : Type 0 where
  pub item : PduItem D
  pub needs_tx : Bool
  pub update_signals : Bool
  pub checksum : ℕ
  pub pdu_idx : ℕ
  pub range_offset : ℕ
  pub range_count : ℕ
  pub header : HeaderFormat
  pub pdu_list : List MPduItem
  pub interval : ℕ
  pub phase : ℕ
  pub trigger : Trigger
  pub encode_ref : ℕ
  pub decode_ref : ℕ
  pub tx_ref : ℕ
  pub rx_ref : ℕ

pub record Clock (D : Type 0) : Type 0 where
  pub simulation_time : ℕ
  pub step_size : D
  pub step_size_epsilon : D
  pub epoch_offset : D

-- One row of the signal matrix.
pub record Row (D : Type 0) : Type 0 where
  pub pdu_idx : ℕ
  pub signal_idx : ℕ
  pub phys : D
  pub raw : ℕ
  pub factor : D
  pub offset : D
  pub min : D
  pub max : D
  pub encode : ℕ
  pub decode : ℕ
  pub start_bit : ℕ
  pub length_bits : ℕ

-- A run of rows and PDUs of one direction.
pub record Range : Type 0 where
  pub dir : Direction
  pub offset : ℕ
  pub length : ℕ
  pub pdu_list : List ℕ

pub record Net (D L : Type 0) : Type 0 where
  pub clock : Clock D
  pub pdus : List (PduObject D)
  -- The payloads, by index; `none` is NULL.
  pub payloads : List (Option (List ℕ))
  pub ranges : List Range
  -- The vectors of matrix.signal, row by row, but for skip.
  pub rows : List (Row D)
  pub skip : List Bool
  -- The state of the Lua interpreter.
  pub lua : L
