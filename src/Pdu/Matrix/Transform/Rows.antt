-- ===== src/Pdu/Matrix/Transform/Rows.antt =====
-- The rows of the matrix belong to the PDUs that point to them.
use dse_modelc.Base.{◌≡◌, List, length, take, drop}
use dse_modelc.Double.{Double}
use dse_modelc.Pdu.{PduObject, Row}
use dse_modelc.Pdu.Matrix.Transform.{signal_rows}

-- The count of an object is that of its signals.
abbrev pub CountsSignals : {D : Type 0} → PduObject D → Type 0
CountsSignals o = o.range_count ≡ length o.item.signals

module _ {D : Type 0} (double : Double D) (step_size : D) where
  -- The rows of an object in a matrix are those of its signals, in order.
  abbrev pub HasRows : List (Row D) → PduObject D → Type 0
  HasRows rows o =
      take o.range_count (drop o.range_offset rows)
      ≡ signal_rows double step_size o.pdu_idx 0 o.item.signals
