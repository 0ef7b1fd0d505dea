-- ===== src/Model/Channel/Configured.antt =====
-- A channel that is configured is what its signal groups give, and stays so.
use dse_modelc.Base.{
  ℕ, ◌≡◌, refl, sym, ap, subst, ◌∙◌, ◌⊎◌, inl, inr, Option, none, some, List, [], ◌∷◌, All,
  Bool-cases, Option-cases, some_cancel, none≢some, arith, length,
}
use dse_modelc.Double.{Double}
use dse_modelc.Controller.{BinaryValue}
use dse_modelc.SimBus.{Channel}
use dse_modelc.SimBus.Index.{same_name}
use dse_modelc.Model.Schema.Match.{same_name_eq}
use dse_modelc.Model.Channel.{ModelChannelType, SignalList, map_get, map_put, load_signals}
use dse_modelc.Model.Channel.Configure.{
  Mfc, Instance, Nodes, build_channel_spec, new_mfc, get_mfc, allocate, configure_mfc,
  configure_channel,
}

map_put-All :
    {A : Type 0} (P : List ℕ → A → Type 0) (name : List ℕ) (a : A) (entries : List (List ℕ × A))
    → P name a
    → All (λ e. P e.0 e.1) entries
    → All (λ e. P e.0 e.1) (map_put name a entries)
unfolding map_put
map_put-All P name a [] p ps = (p, tt)
map_put-All P name a ((n, b) ∷ entries) p ps = elim (Bool-cases (same_name n name)) [
  | inl same ↦ rw same (subst (λ k. P k a) (sym (same_name_eq n name same)) p, ps.1)
  | inr other ↦ rw other (ps.0, map_put-All P name a entries p ps.1)
]

map_get-All :
    {A : Type 0} (P : List ℕ → A → Type 0) (name : List ℕ) (a : A) (entries : List (List ℕ × A))
    → All (λ e. P e.0 e.1) entries
    → map_get entries name ≡ some a
    → P name a
unfolding map_get
map_get-All P name a [] ps e = absurd (none≢some e)
map_get-All P name a ((n, b) ∷ entries) ps e = elim (Bool-cases (same_name n name)) [
  | inl same ↦
      let first : map_get ((n, b) ∷ entries) name ≡ some b = rw (map_get, same) in
      let at_name : P name b = subst (λ k. P k b) (same_name_eq n name same) ps.0 in
      subst (λ v. P name v) (some_cancel (sym first ∙ e)) at_name
  | inr other ↦
      let later : map_get ((n, b) ∷ entries) name ≡ map_get entries name = rw (map_get, other) in
      map_get-All P name a entries ps.1 (sym later ∙ e)
]

module _ {D A S : Type 0} (double : Double D) (one : D) (empty : S) (nodes : Nodes D A)
    (alias_of : List ℕ → Option (List ℕ)) where
  -- What the signal groups of a channel give.
  abbrev pub loaded : List ℕ → SignalList D A × ModelChannelType
  loaded name =
      load_signals double one nodes.documents nodes.group (nodes.selector name (alias_of name))
        ModelChannelType.vector_double

  -- A channel as it is when it has been configured once.
  abbrev pub IsConfigured : List ℕ → Mfc D A → Type 0
  IsConfigured name mfc = mfc ≡ allocate double one empty nodes (loaded name) new_mfc

  -- Channels of one name have one alias.
  abbrev pub HasAliases : Type 0
  HasAliases =
      (name : List ℕ) (spec : List ℕ × Option (List ℕ))
      → build_channel_spec nodes name ≡ some spec
      → spec.1 ≡ alias_of spec.0

  allocate_again :
      (l : SignalList D A × ModelChannelType)
      → allocate double one empty nodes l (allocate double one empty nodes l new_mfc)
        ≡ allocate double one empty nodes l new_mfc
  unfolding allocate
  allocate_again (l, ModelChannelType.vector_double) = refl
  allocate_again (l, ModelChannelType.vector_binary) = refl

  -- A channel without signals is loaded.
  configure_empty :
      (name : List ℕ) (mfc : Mfc D A) (channels : List (List ℕ × Channel D S))
      → mfc.signal_names ≡ []
      → (mfc ≡ new_mfc) ⊎ IsConfigured name mfc
      → let r = configure_mfc double one empty nodes name (alias_of name) mfc channels in
        (r.0 ≡ 0) × IsConfigured name r.1
  unfolding configure_mfc
  configure_empty name mfc channels e (inl new) =
      rw (configure_mfc, e) (refl, ap (λ m. allocate double one empty nodes (loaded name) m) new)
  configure_empty name mfc channels e (inr old) =
      rw (configure_mfc, e)
        (
          refl,
          ap (λ m. allocate double one empty nodes (loaded name) m) old
              ∙ allocate_again (loaded name),
        )

  -- A channel with signals has a vector.
  pub allocated :
      (l : SignalList D A × ModelChannelType)
      → let mfc = allocate double one empty nodes l new_mfc in
        ((vs : List D) × (mfc.signal_value_double ≡ some vs))
        ⊎ ((mfc.signal_value_double ≡ none)
            × ((vs : List BinaryValue) × (mfc.signal_value_binary ≡ some vs)))
  unfolding allocate
  allocated (l, ModelChannelType.vector_double) = inl (_, refl)
  allocated (l, ModelChannelType.vector_binary) = inr (refl, (_, refl))

  configure_again :
      (name n : List ℕ) (ns : List (List ℕ)) (mfc : Mfc D A)
      (channels : List (List ℕ × Channel D S))
      → mfc.signal_names ≡ n ∷ ns
      → IsConfigured name mfc
      → configure_mfc double one empty nodes name (alias_of name) mfc channels ≡ (0, mfc, channels)
  unfolding configure_mfc
  configure_again name n ns mfc channels e is = elim (allocated (loaded name)) [
    | inl (vs, v) ↦
        let found : mfc.signal_value_double ≡ some vs = ap (λ m. m.signal_value_double) is ∙ v in
        simp (configure_mfc, e, found)
    | inr (z, (vs, v)) ↦
        let missing : mfc.signal_value_double ≡ none = ap (λ m. m.signal_value_double) is ∙ z in
        let found : mfc.signal_value_binary ≡ some vs = ap (λ m. m.signal_value_binary) is ∙ v in
        simp (configure_mfc, e, missing, found)
  ]

  configure_mfc-IsConfigured :
      (name : List ℕ) (ns : List (List ℕ)) (mfc : Mfc D A) (channels : List (List ℕ × Channel D S))
      → mfc.signal_names ≡ ns
      → (mfc ≡ new_mfc) ⊎ IsConfigured name mfc
      → let r = configure_mfc double one empty nodes name (alias_of name) mfc channels in
        (r.0 ≡ 0) × IsConfigured name r.1
  configure_mfc-IsConfigured name [] mfc channels e h = configure_empty name mfc channels e h
  configure_mfc-IsConfigured name (n ∷ ns) mfc channels e (inl new) =
      let lengths : length {A = List ℕ} [] ≡ length (n ∷ ns) =
        ap (λ m. length m.signal_names) (sym new) ∙ ap length e in
      absurd (omega arith)
  configure_mfc-IsConfigured name (n ∷ ns) mfc channels e (inr old) =
      let same = configure_again name n ns mfc channels e old in
      (ap (λ r. r.0) same, subst (λ m. IsConfigured name m) (sym (ap (λ r. r.1) same)) old)

  get_mfc-IsConfigured :
      (name : List ℕ) (mfcs : List (List ℕ × Mfc D A))
      → All (λ e. IsConfigured e.0 e.1) mfcs
      → (get_mfc mfcs name ≡ new_mfc) ⊎ IsConfigured name (get_mfc mfcs name)
  unfolding get_mfc
  get_mfc-IsConfigured name mfcs h = elim (Option-cases (map_get mfcs name)) [
    | inl missing ↦ inl (rw (get_mfc, missing))
    | inr (mfc, found) ↦ inr (rw (get_mfc, found) (map_get-All IsConfigured name mfc mfcs h found))
  ]

  abbrev pub AreConfigured : Instance D A S → Type 0
  AreConfigured mi = All (λ f. All (λ e. IsConfigured e.0 e.1) f.1) mi.functions

  pub configure_channel-AreConfigured :
      (name function_name : List ℕ) (mi : Instance D A S)
      → HasAliases
      → AreConfigured mi
      → AreConfigured (configure_channel double one empty nodes name function_name mi).1
  unfolding configure_channel
  configure_channel-AreConfigured name function_name mi aliases h =
      elim (Option-cases (build_channel_spec nodes name)) [
        | inl missing ↦ rw (configure_channel, missing) h
        | inr (spec, found) ↦ elim (Option-cases (map_get mi.functions function_name)) [
          | inl unknown ↦ rw (configure_channel, found, unknown) h
          | inr (mfcs, known) ↦
              let here =
                map_get-All (λ n es. All (λ e. IsConfigured e.0 e.1) es) function_name mfcs
                  mi.functions h known in
              let r =
                configure_mfc-IsConfigured spec.0 (get_mfc mfcs spec.0).signal_names
                  (get_mfc mfcs spec.0) mi.channels refl (get_mfc-IsConfigured spec.0 mfcs here) in
              simp (configure_channel, found, known, aliases name spec found)
                (map_put-All (λ n es. All (λ e. IsConfigured e.0 e.1) es) function_name _
                  mi.functions (map_put-All IsConfigured spec.0 _ mfcs r.1 here) h)
        ]
      ]

  -- A call fails only if there is no such channel or function.
  pub configure_channel-code :
      (name function_name : List ℕ) (mi : Instance D A S)
      → HasAliases
      → AreConfigured mi
      → ((configure_channel double one empty nodes name function_name mi).0 ≡ 0)
        ⊎ ((build_channel_spec nodes name ≡ none) ⊎ (map_get mi.functions function_name ≡ none))
  unfolding configure_channel
  configure_channel-code name function_name mi aliases h =
      elim (Option-cases (build_channel_spec nodes name)) [
        | inl missing ↦ inr (inl missing)
        | inr (spec, found) ↦ elim (Option-cases (map_get mi.functions function_name)) [
          | inl unknown ↦ inr (inr unknown)
          | inr (mfcs, known) ↦
              let here =
                map_get-All (λ n es. All (λ e. IsConfigured e.0 e.1) es) function_name mfcs
                  mi.functions h known in
              let r =
                configure_mfc-IsConfigured spec.0 (get_mfc mfcs spec.0).signal_names
                  (get_mfc mfcs spec.0) mi.channels refl (get_mfc-IsConfigured spec.0 mfcs here) in
              inl (simp (configure_channel, found, known, aliases name spec found) r.0)
        ]
      ]
