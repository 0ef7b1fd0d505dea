-- ===== src/Model/Channel/Sized.antt =====
-- The channels of a model's functions after any calls of model_configure_channel().
use dse_modelc.Base.{
  ℕ, ◌≡◌, refl, sym, ap, subst, ◌∙◌, ◌⊎◌, inl, inr, Option, none, some, List, [], ◌∷◌, All,
  some_cancel, none≢some, length, length-map, length-replicate,
}
use dse_modelc.Double.{Double}
use dse_modelc.Controller.{SignalTransform, BinaryValue}
use dse_modelc.Model.Channel.{ModelChannelType, SignalList, listed, map_get, load_signals}
use dse_modelc.Model.Channel.Configure.{
  Mfc, Instance, Nodes, build_channel_spec, new_mfc, allocate, configure_channel,
  configure_channels,
}
use dse_modelc.Model.Channel.Configured.{
  loaded, IsConfigured, HasAliases, AreConfigured, configure_channel-AreConfigured,
  configure_channel-code,
}

module _ {D A S : Type 0} (double : Double D) (one : D) (empty : S) (nodes : Nodes D A)
    (alias_of : List ℕ → Option (List ℕ)) where
  -- One vector, with a value for each signal of the channel's groups, and as many transforms and
  -- annotations, if any.
  abbrev pub IsSized : List ℕ → Mfc D A → Type 0
  IsSized name mfc =
      (mfc.signal_names ≡ (loaded double one empty nodes alias_of name).0.names)
      × (((mfc.signal_value_binary ≡ none)
            × ((vs : List D) × (mfc.signal_value_double ≡ some vs)
                × (length vs ≡ length mfc.signal_names)))
          ⊎ ((mfc.signal_value_double ≡ none)
              × ((vs : List BinaryValue) × (mfc.signal_value_binary ≡ some vs)
                  × (length vs ≡ length mfc.signal_names))))
      × ((ts : List (SignalTransform D))
          → mfc.signal_transform ≡ some ts
          → length ts ≡ length mfc.signal_names)
      × ((ys : List (Option A))
          → mfc.signal_annotation ≡ some ys
          → length ys ≡ length mfc.signal_names)

  listed-length :
      {B C : Type 0} (entries : List (List ℕ × B)) (f : Option B → C) (names : List (List ℕ))
      (ts : List C)
      → listed double one entries f names ≡ some ts
      → length ts ≡ length names
  listed-length [] f names ts e = absurd (none≢some e)
  listed-length (x ∷ entries) f names ts e =
      sym (ap length (some_cancel e)) ∙ length-map (λ name. f (map_get (x ∷ entries) name)) names

  abbrev HasLists : SignalList D A → Type 0
  HasLists l =
      ((ts : List (SignalTransform D)) → l.transform ≡ some ts → length ts ≡ length l.names)
      × ((ys : List (Option A)) → l.annotation ≡ some ys → length ys ≡ length l.names)

  loaded-HasLists : (name : List ℕ) → HasLists (loaded double one empty nodes alias_of name).0
  unfolding load_signals
  loaded-HasLists name = ((λ ts e. listed-length _ _ _ ts e), λ ys e. listed-length _ _ _ ys e)

  allocate-IsSized :
      (name : List ℕ) (l : SignalList D A × ModelChannelType)
      → l ≡ loaded double one empty nodes alias_of name
      → IsSized name (allocate double one empty nodes l new_mfc)
  unfolding allocate
  allocate-IsSized name (l, ModelChannelType.vector_double) e =
      let lists = subst (λ p. HasLists p.0) (sym e) (loaded-HasLists name) in
      (
        ap (λ p. p.0.names) e,
        inl (refl, (_, refl, length-replicate (length l.names) double.zero)),
        lists.0,
        lists.1,
      )
  allocate-IsSized name (l, ModelChannelType.vector_binary) e =
      let lists = subst (λ p. HasLists p.0) (sym e) (loaded-HasLists name) in
      (
        ap (λ p. p.0.names) e,
        inr (refl, (_, refl, length-replicate (length l.names) _)),
        lists.0,
        lists.1,
      )

  All-IsSized :
      (mfcs : List (List ℕ × Mfc D A))
      → All (λ e. IsConfigured double one empty nodes alias_of e.0 e.1) mfcs
      → All (λ e. IsSized e.0 e.1) mfcs
  All-IsSized [] h = tt
  All-IsSized ((n, mfc) ∷ mfcs) h = (
    subst (λ m. IsSized n m) (sym h.0)
        (allocate-IsSized n (loaded double one empty nodes alias_of n) refl),
    All-IsSized mfcs h.1,
  )

  AreConfigured-IsSized :
      (functions : List (List ℕ × List (List ℕ × Mfc D A)))
      → All (λ f. All (λ e. IsConfigured double one empty nodes alias_of e.0 e.1) f.1) functions
      → All (λ f. All (λ e. IsSized e.0 e.1) f.1) functions
  AreConfigured-IsSized [] h = tt
  AreConfigured-IsSized ((n, mfcs) ∷ functions) h =
      (All-IsSized mfcs h.0, AreConfigured-IsSized functions h.1)

  configure_channels-AreConfigured :
      (calls : List (List ℕ × List ℕ)) (mi : Instance D A S)
      → HasAliases double one empty nodes alias_of
      → AreConfigured double one empty nodes alias_of mi
      → AreConfigured double one empty nodes alias_of
          (configure_channels double one empty nodes calls mi)
  unfolding configure_channels
  configure_channels-AreConfigured [] mi aliases h = h
  configure_channels-AreConfigured ((name, function_name) ∷ calls) mi aliases h =
      configure_channels-AreConfigured calls
        (configure_channel double one empty nodes name function_name mi).1 aliases
        (configure_channel-AreConfigured double one empty nodes alias_of name function_name mi
          aliases h)

  fresh-AreConfigured :
      (functions : List (List ℕ × List (List ℕ × Mfc D A)))
      → All (λ f. f.1 ≡ []) functions
      → All (λ f. All (λ e. IsConfigured double one empty nodes alias_of e.0 e.1) f.1) functions
  fresh-AreConfigured [] h = tt
  fresh-AreConfigured ((n, mfcs) ∷ functions) h = (
    subst (λ es. All (λ e. IsConfigured double one empty nodes alias_of e.0 e.1) es) (sym h.0) tt,
    fresh-AreConfigured functions h.1,
  )

  -- However often the channels of a model are configured, in any order and for any functions, if
  -- its functions have no channels at the start and channels of one name have one alias: every
  -- channel of every function has the names that its signal groups give, exactly one of the two
  -- vectors, with a value for each name, and as many transforms and annotations, if it has any. A
  -- further call returns 0, unless the instance has no such channel or no such function.
  pub configure_channels-IsSized :
      (calls : List (List ℕ × List ℕ)) (mi : Instance D A S)
      → HasAliases double one empty nodes alias_of
      → All (λ f. f.1 ≡ []) mi.functions
      → let mi' = configure_channels double one empty nodes calls mi in
        All (λ f. All (λ e. IsSized e.0 e.1) f.1) mi'.functions
        × ((name function_name : List ℕ)
            → ((configure_channel double one empty nodes name function_name mi').0 ≡ 0)
              ⊎ ((build_channel_spec nodes name ≡ none)
                  ⊎ (map_get mi'.functions function_name ≡ none)))
  configure_channels-IsSized calls mi aliases fresh =
      let h =
        configure_channels-AreConfigured calls mi aliases
          (fresh-AreConfigured mi.functions fresh) in
      let mi' = configure_channels double one empty nodes calls mi in
      (
        AreConfigured-IsSized mi'.functions h,
        λ name function_name.
            configure_channel-code double one empty nodes alias_of name function_name mi' aliases h,
      )
