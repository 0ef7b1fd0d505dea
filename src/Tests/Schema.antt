-- ===== src/Tests/Schema.antt =====
-- Documents, a selector, and the vectors of a model.
use dse_modelc.Base.{ℕ, ◌≡◌, ◌↔◌, refl, true, false, Option, none, some, List, [], ◌∷◌}
use dse_modelc.SimBus.Index.{same_name}
use dse_modelc.Model.Schema.{
  Document, Selector, Verdict, scalar_matches, find_label, label_matches, match_count, labels_match,
  selects, search_from, schema_object_search, minus_enodata,
}
use dse_modelc.Model.Schema.Match.{IsSelected, selects_iff}
use dse_modelc.Model.Index.{SignalVector, ModelSignalIndex, model_index}
use dse_modelc.Model.Index.Found.{IsLookup, model_index-IsLookup}

abbrev document : Document
document = record {
  doc = 0;
  kind = some (1 ∷ []);
  name = some (2 ∷ []);
  labels = some ((3 ∷ [], some (4 ∷ [])) ∷ (5 ∷ [], some (6 ∷ [])) ∷ []);
}

abbrev selector : Selector
selector = record {
  kind = some (1 ∷ []);
  name = none;
  labels = (some (5 ∷ []), some (6 ∷ [])) ∷ (some (3 ∷ []), some (4 ∷ [])) ∷ [];
}

select_example : (selects selector document ≡ true) ↔ IsSelected selector document
select_example = selects_iff selector document

-- A label without a value is never matched.
abbrev strict : Selector
strict = record selector { labels = (some (5 ∷ []), none) ∷ [] }

abbrev count : ℕ → Document → Verdict × ℕ
count n d = (Verdict.go_on, 1)

search_tests :
    (schema_object_search count selector (document ∷ []) 0 ≡ (0, 1))
    × (schema_object_search count strict (document ∷ []) 0 ≡ (minus_enodata, 0))
unfolding schema_object_search search_from selects scalar_matches labels_match match_count
    label_matches find_label same_name
search_tests = (refl, refl)

abbrev vectors : List SignalVector
vectors =
    record { alias = some (9 ∷ []); signal = (1 ∷ []) ∷ []; is_binary = false }
    ∷ record { alias = some (9 ∷ []); signal = (2 ∷ []) ∷ (1 ∷ []) ∷ []; is_binary = true }
    ∷ []

index_example :
    (r : Option ModelSignalIndex) × (model_index vectors (9 ∷ []) (some (2 ∷ [])) ≡ some r)
    × IsLookup (9 ∷ []) (2 ∷ []) 0 vectors r
index_example =
    model_index-IsLookup vectors (9 ∷ []) (2 ∷ []) ((9 ∷ [], refl), ((9 ∷ [], refl), tt))
