-- ===== src/Model/Channel/Configure.antt =====
-- model_build_channel_spec(), _get_mfc() and model_configure_channel() of dse/modelc/model/model.c,
-- and adapter_init_channel() of dse/modelc/adapter/adapter.c.
use dse_modelc.Base.{ℕ, false, Option, none, some, List, [], ◌∷◌, length, replicate}
use dse_modelc.Double.{Double}
use dse_modelc.Controller.{SignalTransform, BinaryValue}
use dse_modelc.SimBus.{Channel}
use dse_modelc.SimBus.Run.{create_channel, init_signals}
use dse_modelc.Model.Schema.{Document, Selector}
use dse_modelc.Model.Channel.{
  ModelChannelType, SignalGroup, SignalList, map_get, map_put, load_signals,
}

-- The channel of a model function as model_configure_channel() leaves it; signal_count is the
-- number of the names.
pub record Mfc (D A : Type 0) : Type 0 where
  pub signal_names : List (List ℕ)
  pub signal_value_double : Option (List D)
  pub signal_value_binary : Option (List BinaryValue)
  pub signal_transform : Option (List (SignalTransform D))
  pub signal_annotation : Option (List (Option A))

-- Model functions by name, each with its channels by name, and the channels of the adapter.
pub record Instance (D A S : Type 0) : Type 0 where
  pub functions : List (List ℕ × List (List ℕ × Mfc D A))
  pub channels : List (List ℕ × Channel D S)

-- A channel of the instance's specification.
pub record ChannelNode : Type 0 where
  pub name : Option (List ℕ)
  pub alias : Option (List ℕ)

-- What the YAML documents give: the first channel of a name or an alias, the selector of a
-- channel's signal groups by its name and alias, and the groups.
pub record Nodes (D A : Type 0) : Type 0 where
  pub by_name : List ℕ → Option ChannelNode
  pub by_alias : List ℕ → Option ChannelNode
  pub selector : List ℕ → Option (List ℕ) → Option Selector
  pub documents : List Document
  pub group : ℕ → SignalGroup D A

abbrev spec_of : List ℕ → ChannelNode → List ℕ × Option (List ℕ)
spec_of name node = elim (node.name) [ none ↦ (name, node.alias) | some n ↦ (n, node.alias) ]

-- The name and the alias of the channel.
unfoldable pub build_channel_spec :
    {D A : Type 0} → Nodes D A → List ℕ → Option (List ℕ × Option (List ℕ))
build_channel_spec nodes name = elim (nodes.by_name name) [
  | some node ↦ some (spec_of name node)
  | none ↦ elim (nodes.by_alias name) [ some node ↦ some (spec_of name node) | none ↦ none ]
]

abbrev pub new_mfc : {D A : Type 0} → Mfc D A
new_mfc = record {
  signal_names = [];
  signal_value_double = none;
  signal_value_binary = none;
  signal_transform = none;
  signal_annotation = none;
}

-- The channel of a function, allocated if it is missing.
unfoldable pub get_mfc : {D A : Type 0} → List (List ℕ × Mfc D A) → List ℕ → Mfc D A
get_mfc channels name = elim (map_get channels name) [ none ↦ new_mfc | some mfc ↦ mfc ]

module _ {D A S : Type 0} (double : Double D) (one : D) (empty : S) (nodes : Nodes D A) where
  unfoldable pub adapter_init_channel :
      List ℕ → List (List ℕ) → List (List ℕ × Channel D S) → List (List ℕ × Channel D S)
  adapter_init_channel name names channels = elim (map_get channels name) [
    | none ↦ map_put name (init_signals double (create_channel empty name) names) channels
    | some c ↦ map_put name (init_signals double c names) channels
  ]

  -- The vectors of a channel, by its type.
  unfoldable pub allocate : SignalList D A × ModelChannelType → Mfc D A → Mfc D A
  allocate (l, ModelChannelType.vector_double) mfc = record {
    signal_names = l.names;
    signal_value_double = some (replicate (length l.names) double.zero);
    signal_value_binary = mfc.signal_value_binary;
    signal_transform = l.transform;
    signal_annotation = l.annotation;
  }
  allocate (l, ModelChannelType.vector_binary) mfc = record {
    signal_names = l.names;
    signal_value_double = mfc.signal_value_double;
    signal_value_binary =
        some (replicate (length l.names) (record { bytes = []; reset_called = false }));
    signal_transform = l.transform;
    signal_annotation = l.annotation;
  }

  -- A channel that has signals is configured already, and must have a vector; the result is the
  -- code, the channel and the channels of the adapter.
  unfoldable pub configure_mfc :
      List ℕ
      → Option (List ℕ)
      → Mfc D A
      → List (List ℕ × Channel D S)
      → ℕ × Mfc D A × List (List ℕ × Channel D S)
  configure_mfc name alias mfc channels = elim (mfc.signal_names) [
    | n ∷ ns ↦ elim (mfc.signal_value_double) [
      | some values ↦ (0, mfc, channels)
      | none ↦ elim (mfc.signal_value_binary) [
        | some values ↦ (0, mfc, channels)
        | none ↦ (1, mfc, channels)
      ]
    ]
    | [] ↦
        let loaded =
          load_signals double one nodes.documents nodes.group (nodes.selector name alias)
            ModelChannelType.vector_double in
        (0, allocate loaded mfc, adapter_init_channel name loaded.0.names channels)
  ]

  unfoldable pub configure_channel : List ℕ → List ℕ → Instance D A S → ℕ × Instance D A S
  configure_channel name function_name mi = elim (build_channel_spec nodes name) [
    | none ↦ (1, mi)
    | some spec ↦ elim (map_get mi.functions function_name) [
      | none ↦ (1, mi)
      | some mfcs ↦
          let (code, mfc, channels) =
            configure_mfc spec.0 spec.1 (get_mfc mfcs spec.0) mi.channels in
          (
            code,
            record {
              functions = map_put function_name (map_put spec.0 mfc mfcs) mi.functions;
              channels = channels;
            },
          )
    ]
  ]

  -- Calls in turn, each with a channel and a function.
  unfoldable pub configure_channels : List (List ℕ × List ℕ) → Instance D A S → Instance D A S
  configure_channels [] mi = mi
  configure_channels ((name, function_name) ∷ calls) mi =
      configure_channels calls (configure_channel name function_name mi).1
