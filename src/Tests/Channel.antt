-- ===== src/Tests/Channel.antt =====
-- A model with one channel, whose signals are binary.
use dse_modelc.Base.{
  ℕ, ◌≡◌, refl, sym, ap, ◌⊎◌, true, Option, none, some, List, [], ◌∷◌, All, some_cancel,
}
use dse_modelc.Model.Schema.{
  schema_object_search, search_from, selects, scalar_matches, labels_match,
}
use dse_modelc.SimBus.Index.{same_name}
use dse_modelc.Model.Channel.{
  SignalGroup, map_get, load_signals, take_signals, take_signal, signal_group_match_handler,
  map_put, parse_signal_transform,
}
use dse_modelc.Model.Channel.Configure.{
  Instance, Nodes, build_channel_spec, configure_channel, configure_channels,
}
use dse_modelc.Model.Channel.Configured.{loaded, HasAliases}
use dse_modelc.Model.Channel.Sized.{IsSized, configure_channels-IsSized}
use dse_modelc.Tests.Common.{whole}

abbrev groups : ℕ → SignalGroup ℕ ℕ
groups doc = record {
  signals =
      some (record { signal = 1 ∷ []; internal = none; linear = none; annotations = some 5 })
      ∷ some (record { signal = 2 ∷ []; internal = some true; linear = none; annotations = none })
      ∷ some (record {
        signal = 3 ∷ [];
        internal = none;
        linear = some (some 2, none);
        annotations = none;
      })
      ∷ none
      ∷ some (record { signal = 4 ∷ []; internal = none; linear = none; annotations = none })
      ∷ [];
  vector_type = some (98 ∷ 105 ∷ 110 ∷ 97 ∷ 114 ∷ 121 ∷ []);
}

abbrev nodes : Nodes ℕ ℕ
nodes = record {
  by_name = λ name. some (record { name = some (7 ∷ []); alias = some (9 ∷ []) });
  by_alias = λ name. none;
  selector = λ name alias. some (record { kind = some (8 ∷ []); name = none; labels = [] });
  documents = record { doc = 0; kind = some (8 ∷ []); name = none; labels = none } ∷ [];
  group = groups;
}

abbrev alias_of : List ℕ → Option (List ℕ)
alias_of name = some (9 ∷ [])

nodes-HasAliases : HasAliases whole 1 tt nodes alias_of
unfolding build_channel_spec
nodes-HasAliases name spec e = ap (λ s. s.1) (sym (some_cancel e))

abbrev instance_at_rest : Instance ℕ ℕ Unit
instance_at_rest = record { functions = (6 ∷ [], []) ∷ []; channels = [] }

-- The internal signal is skipped, and the entry without a name ends the list.
loaded_test : (loaded whole 1 tt nodes alias_of (7 ∷ [])).0.names ≡ (1 ∷ []) ∷ (3 ∷ []) ∷ []
unfolding load_signals schema_object_search search_from selects scalar_matches labels_match
    same_name take_signals take_signal signal_group_match_handler map_put parse_signal_transform
loaded_test = refl

calls_example :
    let mi' =
      configure_channels whole 1 tt nodes
        ((9 ∷ [], 6 ∷ []) ∷ (7 ∷ [], 6 ∷ []) ∷ [])
        instance_at_rest in
    All (λ f. All (λ e. IsSized whole 1 tt nodes alias_of e.0 e.1) f.1) mi'.functions
    × ((name function_name : List ℕ)
        → ((configure_channel whole 1 tt nodes name function_name mi').0 ≡ 0)
          ⊎ ((build_channel_spec nodes name ≡ none) ⊎ (map_get mi'.functions function_name ≡ none)))
calls_example =
    configure_channels-IsSized whole 1 tt nodes alias_of ((9 ∷ [], 6 ∷ []) ∷ (7 ∷ [], 6 ∷ []) ∷ [])
      instance_at_rest nodes-HasAliases (refl, tt)
