-- ===== src/Controller/Merge/Signals.antt =====
-- What a merge writes to the channel of the target.
use dse_modelc.Base.{
  ℕ, suc, ◌+◌, ◌-◌, ◌≤◌, ◌≡◌, refl, sym, ap, subst, ◌∙◌, none, some, List, [], ◌∷◌, ◌++◌, map,
  arith, inl, inr, Bool-cases, Option-cases, some_cancel, none≢some, length, get_elem?, take, drop,
  if◌then◌else◌,
}
use dse_modelc.Double.{Double}
use dse_modelc.SimBus.{SignalValue, Channel}
use dse_modelc.SimBus.Index.{same_name, position_by_name, get_signal_value, invalidate_index}
use dse_modelc.Controller.Merge.{merge_signals, merge_channel}

module _ {D : Type 0} (zero_val : D) where
  -- The final value of the signal with a name, and 0 if there is none.
  abbrev pub final_of : List (SignalValue D) → List ℕ → D
  final_of [] name = zero_val
  final_of (sv ∷ svs) name = if same_name sv.name name then sv.final_val else final_of svs name

  abbrev new_signal : List ℕ → SignalValue D
  new_signal name = record {
    name = name;
    uid = 0;
    vector_index = 0;
    val = zero_val;
    final_val = zero_val;
    bin = [];
  }

  final_of-new :
      (svs : List (SignalValue D)) (name other : List ℕ)
      → final_of (svs ++ new_signal name ∷ []) other ≡ final_of svs other
  final_of-new [] name other = elim (Bool-cases (same_name name other)) [
    | inl e ↦ rw e
    | inr e ↦ rw e
  ]
  final_of-new (sv ∷ svs) name other = elim (Bool-cases (same_name sv.name other)) [
    | inl e ↦ rw e
    | inr e ↦ rw e (final_of-new svs name other)
  ]

  final_of-found :
      (svs : List (SignalValue D)) (name : List ℕ) (k i : ℕ)
      → position_by_name name k svs ≡ some i
      → (k ≤ i)
        × ((sv : SignalValue D) × (get_elem? svs (i - k) ≡ some sv)
            × (sv.final_val ≡ final_of svs name))
  unfolding position_by_name
  final_of-found [] name k i e = absurd (none≢some e)
  final_of-found (sv ∷ svs) name k i e = elim (Bool-cases (same_name sv.name name)) [
    | inl hit ↦
        let here : k ≡ i = some_cancel (rw (position_by_name, hit) at e) in
        let first : 0 ≡ i - k = omega arith in
        (omega arith, (sv, subst (λ j. get_elem? (sv ∷ svs) j ≡ some sv) first refl, rw hit))
    | inr miss ↦
        let (le, (sv', at, same)) =
          final_of-found svs name (k + 1) i (rw (position_by_name, miss) at e) in
        let next : suc (i - (k + 1)) ≡ i - k = omega arith in
        (omega arith, (sv', subst (λ j. get_elem? (sv ∷ svs) j ≡ some sv') next at, rw miss same))
  ]

  final_of-absent :
      (svs : List (SignalValue D)) (name : List ℕ) (k : ℕ)
      → position_by_name name k svs ≡ none
      → final_of svs name ≡ zero_val
  unfolding position_by_name
  final_of-absent [] name k e = refl
  final_of-absent (sv ∷ svs) name k e = elim (Bool-cases (same_name sv.name name)) [
    | inl hit ↦ absurd (none≢some (sym (rw (position_by_name, hit) at e)))
    | inr miss ↦ rw miss (final_of-absent svs name (k + 1) (rw (position_by_name, miss) at e))
  ]

get_elem?-last : {A : Type 0} (xs : List A) (x : A) → get_elem? (xs ++ x ∷ []) (length xs) ≡ some x
get_elem?-last [] x = refl
get_elem?-last (y ∷ xs) x = get_elem?-last xs x

module _ {D S : Type 0} (zero_val : D) where
  -- The signal that is got has the final value, and no other final value changes.
  pub get_signal_value-final :
      (c : Channel D S) (name : List ℕ)
      → let r = get_signal_value zero_val c name in
        ((sv : SignalValue D) × (get_elem? r.1.signal_values r.0 ≡ some sv)
          × (sv.final_val ≡ final_of zero_val c.signal_values name))
        × ((other : List ℕ)
            → final_of zero_val r.1.signal_values other ≡ final_of zero_val c.signal_values other)
  unfolding get_signal_value
  get_signal_value-final c name = elim (Option-cases (position_by_name name 0 c.signal_values)) [
    | inr (i, found) ↦
        let (le, (sv, at, same)) = final_of-found zero_val c.signal_values name 0 i found in
        let from_first : i - 0 ≡ i = omega arith in
        let here = subst (λ j. get_elem? c.signal_values j ≡ some sv) from_first at in
        rw (get_signal_value, found) ((sv, here, same), λ other. refl)
    | inl absent ↦
        let new = new_signal zero_val name in
        let more : Channel D S = record c { signal_values = c.signal_values ++ new ∷ [] } in
        let kept : (invalidate_index more).signal_values ≡ c.signal_values ++ new ∷ [] =
          elim (Bool-cases c.names) [ inl e ↦ rw e | inr e ↦ rw e ] in
        rw (get_signal_value, absent)
          (
            (
              new,
              ap (λ svs. get_elem? svs (length c.signal_values)) kept
                  ∙ get_elem?-last c.signal_values new,
              sym (final_of-absent zero_val c.signal_values name 0 absent),
            ),
            λ other.
                ap (λ svs. final_of zero_val svs other) kept
                ∙ final_of-new zero_val c.signal_values name other,
          )
  ]

module _ {D S : Type 0} (double : Double D) (assign : D → SignalValue D → SignalValue D) where
  merge_signals-final :
      (svs all : List (SignalValue D)) (source : Channel D S)
      → ((other : List ℕ)
          → final_of double.zero source.signal_values other ≡ final_of double.zero all other)
      → (source' : Channel D S) × (merge_signals double assign svs source
          ≡ some (map (λ sv. assign (final_of double.zero all sv.name) sv) svs, source'))
  unfolding merge_signals
  merge_signals-final [] all source same = (source, refl)
  merge_signals-final (sv ∷ svs) all source same =
      let ((got, at, value), kept) = get_signal_value-final double.zero source sv.name in
      let (source', e) =
        merge_signals-final svs all (get_signal_value double.zero source sv.name).1
          (λ other. kept other ∙ same other) in
      let written : assign got.final_val sv ≡ assign (final_of double.zero all sv.name) sv =
        ap (λ v. assign v sv) (value ∙ same sv.name) in
      (
        source',
        rw (merge_signals, at, e)
            (ap (λ x. some (x ∷ map (λ t. assign (final_of double.zero all t.name) t) svs, source'))
              written),
      )

  -- A merge from one channel to another succeeds: every signal of the target's index is assigned
  -- the final value of the source's signal of its name, and 0 where the source has no such signal,
  -- also when the target holds another value. The other signals of the target stay.
  pub merge_channel-final :
      (target source : Channel D S)
      → (source' : Channel D S) × (merge_channel double assign target source
          ≡ some (
            record target {
              signal_values =
                  map
                    (λ sv. assign (final_of double.zero source.signal_values sv.name) sv)
                    (take target.count target.signal_values)
                  ++ drop target.count target.signal_values;
            },
            source',
          ))
  unfolding merge_channel
  merge_channel-final target source =
      let (source', e) =
        merge_signals-final (take target.count target.signal_values) source.signal_values source
          (λ other. refl) in
      (source', rw (merge_channel, e))
