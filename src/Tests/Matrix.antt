-- ===== src/Tests/Matrix.antt =====
-- The matrix of two PDUs with three signals.
use dse_modelc.Base.{ℕ, ◌≡◌, refl, true, Option, none, some, List, [], ◌∷◌, All, map, length}
use dse_modelc.Pdu.{Direction, HeaderFormat, SignalItem, PduItem, Net}
use dse_modelc.Pdu.Matrix.Transform.{matrix_transform}
use dse_modelc.Pdu.Matrix.{pack_rows}
use dse_modelc.Model.Schema.{load_uint}
use dse_modelc.Pdu.Parse.{
  SignalNode, PduNode, is_invalid, signal_generator, parse_signals, pdu_generator, parse_pdus,
}
use dse_modelc.Pdu.Parse.Within.{InPayload, with_values, parse_pdus-pack_rows}
use dse_modelc.Pdu.Cycle.{pdunet_transform}
use dse_modelc.Pdu.Cycle.Containers.{IsMapped, pdunet_transform-IsMapped}
use dse_modelc.Tests.Common.{whole, rest_item, start_clock}

abbrev signal : SignalItem ℕ
signal = record {
  start_bit = 0;
  length_bits = 4;
  factor = 1;
  offset = 0;
  min = 1000000;
  max = 1000000;
  encode_ref = 0;
  decode_ref = 0;
}

abbrev items : List (PduItem ℕ)
items =
    record rest_item { signals = signal ∷ record signal { start_bit = 4 } ∷ [] }
    ∷ record rest_item { dir = Direction.rx; signals = signal ∷ [] }
    ∷ []

abbrev empty_net : Net ℕ Unit
empty_net = record {
  clock = start_clock;
  pdus = [];
  payloads = [];
  ranges = [];
  rows = [];
  skip = [];
  lua = tt;
}

-- A signal of 12 bits, and one that is behind the end of the PDU.
abbrev signal_node : SignalNode ℕ
signal_node = record {
  has_name = true;
  start = some 4;
  length = some 12;
  factor = some 1;
  offset = some 0;
  min = none;
  max = none;
  encode_ref = 0;
  decode_ref = 0;
}

abbrev pdu_nodes : List (PduNode ℕ)
pdu_nodes =
    record {
      id = some 7;
      length = some 2;
      dir = some Direction.tx;
      container_header = none;
      container_id = none;
      container_priority = none;
      schedule_phase = none;
      schedule_interval = none;
      schedule_trigger = none;
      encode_ref = 0;
      decode_ref = 0;
      tx_ref = 0;
      rx_ref = 0;
      signals = signal_node ∷ record signal_node { start = some 5 } ∷ [];
    }
    ∷ []

parse_example :
    let net = matrix_transform whole (λ os. os) (parse_pdus whole 0 pdu_nodes) empty_net in
    All (InPayload net.payloads) net.rows
    × ((qs : List (Option (List ℕ))) × (pack_rows (with_values (λ r. 4095) net.rows) net.payloads
          ≡ some qs))
parse_example =
    parse_pdus-pack_rows whole 0 (λ os. os) pdu_nodes empty_net (λ r. 4095) (λ P os h. h)

abbrev signal_counts : List ℕ
signal_counts = map (λ p. length p.signals) (parse_pdus whole 0 pdu_nodes)

-- The second signal is rejected.
parse_counts : signal_counts ≡ 1 ∷ []
unfolding load_uint parse_pdus pdu_generator parse_signals signal_generator is_invalid
parse_counts = refl

-- A container and an I-PDU of it.
abbrev container_items : List (PduItem ℕ)
container_items =
    record rest_item { id = 7; container_header = HeaderFormat.short }
    ∷ record rest_item { id = 8; container_id = 7 }
    ∷ []

container_example :
    let net = pdunet_transform whole (λ os. os) (λ ms. ms) container_items empty_net in
    All (λ c. All (IsMapped net.pdus c.item) c.pdu_list) net.pdus
container_example =
    pdunet_transform-IsMapped whole (λ os. os) (λ ms. ms) container_items empty_net (λ P os h. h)
      (λ P ms h. h)
