-- ===== src/Adapter/Sync/Memory.antt =====
-- The bus and a model as an implementation of one memory that all models share.
use dse_modelc.Base.{ℕ}
use dse_modelc.Double.{Double}
use dse_modelc.SimBus.{Channel}
use dse_modelc.Adapter.Sync.{Represents}

module _ {D S : Type 0} (double : Double D) where
  -- Bus and model are at rest between two steps and hold the memory: the values of both, and the
  -- final values of the bus.
  abbrev pub Shares : (ℕ → D) → Channel D S → Channel D S → Type 0
  Shares memory bus model =
      Represents double (λ sv. sv.val) memory bus.signal_values
      × Represents double (λ sv. sv.final_val) memory bus.signal_values
      × Represents double (λ sv. sv.val) memory model.signal_values
