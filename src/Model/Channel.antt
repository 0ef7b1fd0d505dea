-- ===== src/Model/Channel.antt =====
-- How a model configures a channel: model_configure_channel() of dse/modelc/model/model.c, with the
-- signals that it loads from the signal groups, and adapter_init_channel(). What the YAML nodes
-- give is a parameter; a hash map is the list of what was set, the last first. Names that are equal
-- are the same pointer.
pub mod Configure
pub mod Configured
pub mod Sized
use dse_modelc.Base.{
  ℕ, ◌≡◌, Bool, true, false, Option, none, some, List, [], ◌∷◌, ◌++◌, map, length, replicate,
  if◌then◌else◌,
}
use dse_modelc.Double.{Double}
use dse_modelc.Controller.{SignalTransform, BinaryValue}
use dse_modelc.SimBus.{Channel}
use dse_modelc.SimBus.Index.{same_name}
use dse_modelc.SimBus.Run.{create_channel, init_signals}
use dse_modelc.Model.Schema.{Document, Selector, Verdict, schema_object_search}

pub data ModelChannelType : Type 0 where
  vector_double vector_binary : ModelChannelType

-- What the node of a signal gives: `linear` holds the factor and the offset of transform/linear.
pub record SchemaSignalObject (D A : Type 0) : Type 0 where
  pub signal : List ℕ
  pub internal : Option Bool
  pub linear : Option (Option D × Option D)
  pub annotations : Option A

-- A list entry without a signal name is `none`.
pub record SignalGroup (D A : Type 0) : Type 0 where
  pub signals : List (Option (SchemaSignalObject D A))
  pub vector_type : Option (List ℕ)

pub record SignalHandlerData (D A : Type 0) : Type 0 where
  pub signal_list : List (List ℕ)
  pub signal_vector_type : ModelChannelType
  pub transform_map : List (List ℕ × SignalTransform D)
  pub annotation_map : List (List ℕ × A)

pub record SignalList (D A : Type 0) : Type 0 where
  pub names : List (List ℕ)
  pub transform : Option (List (SignalTransform D))
  pub annotation : Option (List (Option A))

-- "binary"
abbrev vector_type_binary_str : List ℕ
vector_type_binary_str = 98 ∷ 105 ∷ 110 ∷ 97 ∷ 114 ∷ 121 ∷ []

unfoldable pub map_get : {A : Type 0} → List (List ℕ × A) → List ℕ → Option A
map_get [] name = none
map_get ((n, a) ∷ entries) name = if same_name n name then some a else map_get entries name

-- An entry is replaced, or added at the end.
unfoldable pub map_put : {A : Type 0} → List ℕ → A → List (List ℕ × A) → List (List ℕ × A)
map_put name a [] = (name, a) ∷ []
map_put name a ((n, b) ∷ entries) =
    if same_name n name then (n, a) ∷ entries else (n, b) ∷ map_put name a entries

abbrev or_value : {A : Type 0} → Option A → A → A
or_value none a = a
or_value (some b) a = b

abbrev add_entry : {A : Type 0} → List ℕ → Option A → List (List ℕ × A) → List (List ℕ × A)
add_entry name none entries = entries
add_entry name (some a) entries = map_put name a entries

module _ {D : Type 0} (double : Double D) (one : D) where
  unfoldable pub parse_signal_transform :
      {A : Type 0} → SchemaSignalObject D A → Option (SignalTransform D)
  parse_signal_transform so = elim so.linear [
    | none ↦ none
    | some linear ↦ some (record {
      factor = or_value linear.0 one;
      offset = or_value linear.1 double.zero;
      model_ref = 0;
      vector_ref = 0;
    })
  ]

  -- Internal signals are skipped.
  unfoldable pub take_signal :
      {A : Type 0} → SchemaSignalObject D A → SignalHandlerData D A → SignalHandlerData D A
  take_signal so h = if or_value so.internal false then h else (record h {
    signal_list = h.signal_list ++ so.signal ∷ [];
    transform_map = add_entry so.signal (parse_signal_transform so) h.transform_map;
    annotation_map = add_entry so.signal so.annotations h.annotation_map;
  })

  -- An entry without a name ends the loop.
  unfoldable pub take_signals :
      {A : Type 0}
      → List (Option (SchemaSignalObject D A))
      → SignalHandlerData D A
      → SignalHandlerData D A
  take_signals [] h = h
  take_signals (none ∷ sos) h = h
  take_signals (some so ∷ sos) h = take_signals sos (take_signal so h)

  unfoldable pub signal_group_match_handler :
      {A : Type 0} → SignalGroup D A → SignalHandlerData D A → SignalHandlerData D A
  signal_group_match_handler group h =
      let h' = take_signals group.signals h in
      elim group.vector_type [
        | none ↦ h'
        | some name ↦
            if same_name name vector_type_binary_str
            then record h' { signal_vector_type = ModelChannelType.vector_binary }
            else h'
      ]

  -- calloc()
  abbrev no_transform : SignalTransform D
  no_transform = record {
    factor = double.zero;
    offset = double.zero;
    model_ref = 0;
    vector_ref = 0;
  }

  -- The list of a signal list, if any of its names has an entry.
  abbrev pub listed :
      {A B : Type 0} → List (List ℕ × A) → (Option A → B) → List (List ℕ) → Option (List B)
  listed [] f names = none
  listed (e ∷ entries) f names = some (map (λ name. f (map_get (e ∷ entries) name)) names)

  -- The selector is none if it cannot be built.
  unfoldable pub load_signals :
      {A : Type 0}
      → List Document
      → (ℕ → SignalGroup D A)
      → Option Selector
      → ModelChannelType
      → SignalList D A × ModelChannelType
  load_signals {A = A} documents group selector vector_type =
      let start : SignalHandlerData D A = record {
        signal_list = [];
        signal_vector_type = vector_type;
        transform_map = [];
        annotation_map = [];
      } in
      let h : SignalHandlerData D A = elim selector [
        | none ↦ start
        | some s ↦
            (schema_object_search
              (λ h d. (Verdict.go_on, signal_group_match_handler (group d.doc) h)) s documents
              start).1
      ] in
      (
        record {
          names = h.signal_list;
          transform = listed h.transform_map (λ t. or_value t no_transform) h.signal_list;
          annotation = listed h.annotation_map (λ a. a) h.signal_list;
        },
        h.signal_vector_type,
      )
