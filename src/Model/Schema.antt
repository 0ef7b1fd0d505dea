-- ===== src/Model/Schema.antt =====
-- The search for schema objects: dse/modelc/model/schema.c. A document is its node and what its nodes give; a
-- label of a document has no value if its node is no scalar. Strings are lists of characters.
pub mod Match
use dse_modelc.Base.{
  ℕ, zero, suc, ◌+◌, ◌-◌, ◌%◌, ◌^◌, Bool, true, false, not, ◌&&◌, Option, none, some, List, [], ◌∷◌,
  length, ◌==◌, if◌then◌else◌,
}
use dse_modelc.SimBus.Index.{same_name}

pub record Document : Type 0 where
  -- The pointer of its node.
  pub doc : ℕ
  pub kind : Option (List ℕ)
  pub name : Option (List ℕ)
  pub labels : Option (List (List ℕ × Option (List ℕ)))

-- A label's name and value, each possibly NULL.
pub record Selector : Type 0 where
  pub kind : Option (List ℕ)
  pub name : Option (List ℕ)
  pub labels : List (Option (List ℕ) × Option (List ℕ))

-- A selector that is NULL matches everything.
unfoldable pub scalar_matches : Option (List ℕ) → Option (List ℕ) → Bool
scalar_matches none scalar = true
scalar_matches (some wanted) none = false
scalar_matches (some wanted) (some scalar) = same_name scalar wanted

-- The scalar of the label, if the document has it.
unfoldable pub find_label : List ℕ → List (List ℕ × Option (List ℕ)) → Option (List ℕ)
find_label name [] = none
find_label name ((n, v) ∷ ls) = if same_name n name then v else find_label name ls

unfoldable pub label_matches :
    List (List ℕ × Option (List ℕ)) → Option (List ℕ) × Option (List ℕ) → Bool
label_matches ls (none, value) = false
label_matches ls (some name, none) = false
label_matches ls (some name, some value) = elim (find_label name ls) [
  | none ↦ false
  | some scalar ↦ same_name scalar value
]

unfoldable pub match_count :
    List (List ℕ × Option (List ℕ)) → List (Option (List ℕ) × Option (List ℕ)) → ℕ
match_count ls [] = 0
match_count ls (l ∷ wanted) = (if label_matches ls l then 1 else 0) + match_count ls wanted

unfoldable pub labels_match :
    Option (List (List ℕ × Option (List ℕ))) → List (Option (List ℕ) × Option (List ℕ)) → Bool
labels_match labels [] = true
labels_match none (l ∷ wanted) = false
labels_match (some ls) (l ∷ wanted) = match_count ls (l ∷ wanted) == length (l ∷ wanted)

unfoldable pub selects : Selector → Document → Bool
selects s d =
    scalar_matches s.kind d.kind && (scalar_matches s.name d.name && labels_match d.labels s.labels)

-- What a handler returns, by its sign: less than 0, 0, or more.
pub data Verdict : Type 0 where
  abort go_on finish : Verdict

abbrev pub minus_enodata : ℕ
minus_enodata = 2 ^ 32 - 61

module _ {S : Type 0} (handler : S → Document → Verdict × S) where
  -- The search, after `count` matches; the handler changes the state.
  unfoldable pub search_from : Selector → ℕ → List Document → S → ℕ × S
  search_from selector count [] s = (if not (count == 0) then 0 else minus_enodata, s)
  search_from selector count (d ∷ ds) s = elim (selects selector d) [
    | false ↦ search_from selector count ds s
    | true ↦
        let (verdict, s') = handler s d in
        elim verdict [
          | Verdict.abort ↦ (1, s')
          | Verdict.go_on ↦ search_from selector (count + 1) ds s'
          | Verdict.finish ↦ (0, s')
        ]
  ]

  unfoldable pub schema_object_search : Selector → List Document → S → ℕ × S
  schema_object_search selector documents s = search_from selector 0 documents s

-- schema_load_object(): a field that the document gives as an unsigned int, cut to its type.
unfoldable pub load_uint : ℕ → Option ℕ → ℕ → ℕ
load_uint width none old = old
load_uint width (some value) old = value % 2 ^ width

-- A field whose value is looked up in a map by its string; no entry leaves it as it is.
unfoldable pub load_mapped : {A : Type 0} → List (List ℕ × A) → Option (List ℕ) → A → A
load_mapped entries none old = old
load_mapped [] (some key) old = old
load_mapped ((k, a) ∷ entries) (some key) old =
    if same_name key k then a else load_mapped entries (some key) old
