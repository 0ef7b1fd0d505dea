-- ===== src/Model/Index.antt =====
-- The index that a model looks its signals up with: __model_index__() and _index_signal_vector() of
-- dse/modelc/model/model.c. A fault of the C code is `none`: an alias that is NULL is compared.
pub mod Found
use dse_modelc.Base.{ℕ, ◌+◌, Bool, true, false, Option, none, some, List, [], ◌∷◌, if◌then◌else◌}
use dse_modelc.SimBus.Index.{same_name}

pub record SignalVector : Type 0 where
  pub alias : Option (List ℕ)
  pub signal : List (List ℕ)
  pub is_binary : Bool

-- `signal` is missing if only the vector is asked for.
pub record ModelSignalIndex : Type 0 where
  pub vector : ℕ
  pub signal : Option ℕ

-- What the index of a vector, filled from its first signal on, gives for a name.
unfoldable pub index_of : List ℕ → ℕ → List (List ℕ) → Option ℕ
index_of name i [] = none
index_of name i (n ∷ ns) = elim (index_of name (i + 1) ns) [
  | some j ↦ some j
  | none ↦ if same_name n name then some i else none
]

-- One vector with the alias: it is found, or the search goes on.
unfoldable pub vector_index : ℕ → SignalVector → Option (List ℕ) → Option ModelSignalIndex
vector_index i sv none = some (record { vector = i; signal = none })
vector_index i sv (some name) = elim (index_of name 0 sv.signal) [
  | none ↦ none
  | some j ↦ some (record { vector = i; signal = some j })
]

unfoldable pub index_from :
    ℕ → List SignalVector → List ℕ → Option (List ℕ) → Option (Option ModelSignalIndex)
index_from i [] vname sname = some none
index_from i (sv ∷ svs) vname sname = elim (sv.alias) [
  | none ↦ none
  | some alias ↦
      if same_name alias vname
      then elim (vector_index i sv sname) [
        | some found ↦ some (some found)
        | none ↦ index_from (i + 1) svs vname sname
      ]
      else index_from (i + 1) svs vname sname
]

unfoldable pub model_index :
    List SignalVector → List ℕ → Option (List ℕ) → Option (Option ModelSignalIndex)
model_index svs vname sname = index_from 0 svs vname sname
