-- ===== src/SimBus/Index.antt =====
-- The index of a channel: dse/modelc/adapter/index.c.
pub mod Lookup
use dse_modelc.Base.{
  ℕ, zero, suc, ◌+◌, ◌%◌, ◌^◌, Bool, true, false, ◌&&◌, Option, none, some, List, [], ◌∷◌, ◌++◌,
  length, take, ◌==◌, if◌then◌else◌,
}
use dse_modelc.SimBus.{SignalValue, Channel}

-- strcmp() == 0
unfoldable pub same_name : List ℕ → List ℕ → Bool
same_name [] [] = true
same_name (x ∷ xs) (y ∷ ys) = x == y && same_name xs ys
same_name _ _ = false

-- Positions from i on.
unfoldable pub position_by_name : {D : Type 0} → List ℕ → ℕ → List (SignalValue D) → Option ℕ
position_by_name name i [] = none
position_by_name name i (sv ∷ svs) =
    if same_name sv.name name then some i else position_by_name name (i + 1) svs

unfoldable pub position_by_uid : {D : Type 0} → ℕ → ℕ → List (SignalValue D) → Option ℕ
position_by_uid uid i [] = none
position_by_uid uid i (sv ∷ svs) = if sv.uid == uid then some i else position_by_uid uid (i + 1) svs

unfoldable pub lookup_uid : ℕ → List (ℕ × ℕ) → Option ℕ
lookup_uid uid [] = none
lookup_uid uid (e ∷ es) = if e.0 == uid then some e.1 else lookup_uid uid es

-- The entries that _get_signal_value_map() adds, the last one first.
unfoldable pub lookup_entries :
    {D : Type 0} → ℕ → List (SignalValue D) → List (ℕ × ℕ) → List (ℕ × ℕ)
lookup_entries i [] es = es
lookup_entries i (sv ∷ svs) es =
    lookup_entries (i + 1) svs (if sv.uid == 0 then es else (sv.uid, i) ∷ es)

module _ {D S : Type 0} where
  abbrev pub destroy_index : Channel D S → Channel D S
  destroy_index c = record c { names = false; count = 0; uid2sv_lookup = [] }

  abbrev pub generate_index : Channel D S → Channel D S
  generate_index c = record c {
    names = true;
    count = length c.signal_values;
    uid2sv_lookup = lookup_entries 0 c.signal_values [];
  }

  abbrev pub invalidate_index : Channel D S → Channel D S
  invalidate_index c =
      if c.names then destroy_index (record c { hash_code = (c.hash_code + 1) % 2 ^ 32 }) else c

  abbrev pub refresh_index : Channel D S → Channel D S
  refresh_index c = if c.names then c else generate_index c

  -- The position of the signal with a uid, which the lookup then remembers.
  unfoldable pub find_signal_by_uid : Channel D S → ℕ → Option ℕ × Channel D S
  find_signal_by_uid c uid = if uid == 0 then (none, c) else elim (lookup_uid uid c.uid2sv_lookup) [
    | some i ↦ (some i, c)
    | none ↦ elim (position_by_uid uid 0 (take c.count c.signal_values)) [
      | none ↦ (none, c)
      | some i ↦ (some i, record c { uid2sv_lookup = (uid, i) ∷ c.uid2sv_lookup })
    ]
  ]

  -- The position of the signal with a name, which is added if there is none.
  unfoldable pub get_signal_value : D → Channel D S → List ℕ → ℕ × Channel D S
  get_signal_value zero_val c name = elim (position_by_name name 0 c.signal_values) [
    | some i ↦ (i, c)
    | none ↦ (
      length c.signal_values,
      invalidate_index (record c {
        signal_values =
            c.signal_values
            ++ record {
              name = name;
              uid = 0;
              vector_index = 0;
              val = zero_val;
              final_val = zero_val;
              bin = [];
            }
              ∷ [];
      }),
    )
  ]
