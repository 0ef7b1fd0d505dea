-- ===== src/Tests/Common.antt =====
-- The interfaces filled with small functions, and a network's objects with every field at rest.
use dse_modelc.Base.{
  ℕ, ◌+◌, ◌-◌, ◌*◌, ◌/◌, ◌%◌, ◌^◌, false, [], ltb, leb, ◌==◌, refl, arith, ◌≡◌, true,
}
use dse_modelc.Double.{Double}
use dse_modelc.Pdu.{Direction, Trigger, HeaderFormat, PduItem, PduObject, Clock, Row}
use dse_modelc.Pdu.Script.{Scripts}

pub whole_sym : (x y : ℕ) → (x == y) ≡ true → (y == x) ≡ true
whole_sym x y h = ground arith

pub whole_trans : (x y z : ℕ) → (x == y) ≡ true → (y == z) ≡ true → (x == z) ≡ true
whole_trans x y z h k = ground arith

-- Whole numbers in place of doubles; 1000000 is NaN.
abbrev pub whole : Double ℕ
whole = record {
  zero = 0;
  add = λ x y. x + y;
  sub = λ x y. x - y;
  mul = λ x y. x * y;
  div = λ x y. x / y;
  lt = ltb;
  le = leb;
  eq = ◌==◌;
  is_nan = λ x. x == 1000000;
  to_u32 = λ x. x % 2 ^ 32;
  to_i32 = λ x. x % 2 ^ 32;
  to_u64 = λ x. x % 2 ^ 64;
  of_u64 = λ x. x;
  eq_sym = whole_sym;
  eq_trans = whole_trans;
}

-- Scripts that change nothing and reject every PDU.
abbrev pub rejecting : Scripts ℕ Unit
rejecting = record {
  pdu_call = λ lua ref payload. record { accepted = false; payload = payload; lua = lua };
  signal_call =
      λ lua ref phys raw payload. record { phys = phys; raw = raw; payload = payload; lua = lua };
  length_kept = λ lua ref payload. refl;
  bytes_kept = λ lua ref payload h. h;
}

abbrev pub rest_item : PduItem ℕ
rest_item = record {
  id = 1;
  length = 2;
  dir = Direction.tx;
  container_header = HeaderFormat.none;
  container_id = 0;
  container_priority = 0;
  schedule_phase = 0;
  schedule_interval = 0;
  schedule_trigger = Trigger.none;
  encode_ref = 0;
  decode_ref = 0;
  tx_ref = 0;
  rx_ref = 0;
  signals = [];
}

abbrev pub rest_object : PduObject ℕ
rest_object = record {
  item = rest_item;
  needs_tx = false;
  update_signals = false;
  checksum = 0;
  pdu_idx = 0;
  range_offset = 0;
  range_count = 0;
  header = HeaderFormat.none;
  pdu_list = [];
  interval = 0;
  phase = 0;
  trigger = Trigger.none;
  encode_ref = 0;
  decode_ref = 0;
  tx_ref = 0;
  rx_ref = 0;
}

abbrev pub start_clock : Clock ℕ
start_clock = record {
  simulation_time = 20;
  step_size = 1;
  step_size_epsilon = 0;
  epoch_offset = 0;
}

abbrev pub rest_row : Row ℕ
rest_row = record {
  pdu_idx = 0;
  signal_idx = 0;
  phys = 0;
  raw = 700;
  factor = 1;
  offset = 0;
  min = 1000000;
  max = 1000000;
  encode = 0;
  decode = 0;
  start_bit = 3;
  length_bits = 9;
}
