-- ===== src/Model/Index/Found.antt =====
-- What the index of a model finds.
use dse_modelc.Base.{
  ℕ, zero, suc, ◌+◌, ◌-◌, ◌≤◌, ◌≡◌, ◌⊎◌, refl, sym, ap, subst, ◌∙◌, inl, inr, Bool, true, false,
  Option, none, some, List, [], ◌∷◌, arith, All, Bool-cases, Option-cases, some_cancel, none≢some,
  get_elem?,
}
use dse_modelc.SimBus.Index.{same_name}
use dse_modelc.Model.Schema.Match.{same_name_eq, same_name_refl}
use dse_modelc.Model.Index.{
  SignalVector, ModelSignalIndex, index_of, vector_index, index_from, model_index,
}

abbrev pub HasAlias : SignalVector → Type 0
HasAlias sv = (alias : List ℕ) × (sv.alias ≡ some alias)

-- The signal of the vector at the index has the name.
index_of-at :
    (name : List ℕ) (i j : ℕ) (ns : List (List ℕ))
    → index_of name i ns ≡ some j
    → (i ≤ j) × (get_elem? ns (j - i) ≡ some name)
unfolding index_of
index_of-at name i j [] e = absurd (none≢some e)
index_of-at name i j (n ∷ ns) e = elim (Option-cases (index_of name (i + 1) ns)) [
  | inr (k, later) ↦
      let same : k ≡ j = some_cancel (rw (index_of, later) at e) in
      let (le, at) = index_of-at name (i + 1) k ns later in
      let next : suc (k - (i + 1)) ≡ j - i = omega arith in
      (omega arith, subst (λ m. get_elem? (n ∷ ns) m ≡ some name) next at)
  | inl last ↦ elim (Bool-cases (same_name n name)) [
    | inl hit ↦
        let here : i ≡ j = some_cancel (rw (index_of, last, hit) at e) in
        let first : 0 ≡ j - i = omega arith in
        let named : n ≡ name = same_name_eq n name hit in
        (omega arith, subst (λ m. get_elem? (n ∷ ns) m ≡ some name) first (ap some named))
    | inr miss ↦ absurd (none≢some (rw (index_of, last, miss) at e))
  ]
]

no_true : {b : Bool} → b ≡ true → ¬ (b ≡ false)
no_true e f = ground arith

-- A signal that is not the first one, and none of the rest.
not_in_rest :
    (name : List ℕ) (i : ℕ) (n : List ℕ) (ns : List (List ℕ)) (j : ℕ)
    → same_name n name ≡ false
    → ((k : ℕ) → ¬ (get_elem? ns k ≡ some name))
    → ¬ (get_elem? (n ∷ ns) j ≡ some name)
not_in_rest name i n ns zero miss absent at =
    no_true (ap (λ x. same_name x name) (some_cancel at) ∙ same_name_refl name) miss
not_in_rest name i n ns (suc j) miss absent at = absent j at

-- A name that is not found is the name of no signal.
index_of-absent :
    (name : List ℕ) (i j : ℕ) (ns : List (List ℕ))
    → index_of name i ns ≡ none
    → ¬ (get_elem? ns j ≡ some name)
unfolding index_of
index_of-absent name i j [] e at = none≢some at
index_of-absent name i j (n ∷ ns) e at = elim (Option-cases (index_of name (i + 1) ns)) [
  | inr (k, later) ↦ none≢some (sym (rw (index_of, later) at e))
  | inl last ↦ elim (Bool-cases (same_name n name)) [
    | inl hit ↦ none≢some (sym (rw (index_of, last, hit) at e))
    | inr miss ↦ not_in_rest name i n ns j miss (λ k. index_of-absent name (i + 1) k ns last) at
  ]
]

module _ (vname name : List ℕ) where
  -- The signal of the name that the search from the k-th vector on has found, or that no vector of
  -- the alias has one.
  abbrev pub IsLookup : ℕ → List SignalVector → Option ModelSignalIndex → Type 0
  IsLookup k svs r =
      ((r ≡ none)
        × ((i j : ℕ) (sv : SignalVector)
            → ¬ (
                (get_elem? svs i ≡ some sv)
                × (sv.alias ≡ some vname)
                × (get_elem? sv.signal j ≡ some name))))
      ⊎ ((i : ℕ) × (j : ℕ) × (sv : SignalVector) × (r
            ≡ some (record { vector = k + i; signal = some j }))
          × (get_elem? svs i ≡ some sv)
          × (sv.alias ≡ some vname)
          × (get_elem? sv.signal j ≡ some name))

  -- One more vector in front, which does not have the signal under the alias.
  IsLookup-cons :
      (k : ℕ) (sv : SignalVector) (svs : List SignalVector) (r : Option ModelSignalIndex)
      → ((j : ℕ) → sv.alias ≡ some vname → ¬ (get_elem? sv.signal j ≡ some name))
      → IsLookup (k + 1) svs r
      → IsLookup k (sv ∷ svs) r
  IsLookup-cons k sv svs r not_here (inl (e, absent)) = inl (e, λ i. go i)
    where
      go :
          (i j : ℕ) (x : SignalVector)
          → ¬ (
              (get_elem? (sv ∷ svs) i ≡ some x)
              × (x.alias ≡ some vname)
              × (get_elem? x.signal j ≡ some name))
      go zero j x (at, its, named) =
          let same : sv ≡ x = some_cancel at in
          not_here j (ap (λ y. y.alias) same ∙ its) (ap (λ y. get_elem? y.signal j) same ∙ named)
      go (suc i) j x found = absent i j x found
  IsLookup-cons k sv svs r not_here (inr (i, j, x, e, at, its, named)) =
      let sum : k + 1 + i ≡ k + suc i = omega arith in
      inr (
        suc i,
        j,
        x,
        subst (λ n. r ≡ some (record { vector = n; signal = some j })) sum e,
        at,
        its,
        named,
      )

  index_from-IsLookup :
      (k : ℕ) (svs : List SignalVector)
      → All HasAlias svs
      → (r : Option ModelSignalIndex) × (index_from k svs vname (some name) ≡ some r)
        × IsLookup k svs r
  unfolding index_from vector_index
  index_from-IsLookup k [] h = (none, refl, inl (refl, λ i j sv found. none≢some found.0))
  index_from-IsLookup k (sv ∷ svs) ((alias, its), h) =
      let (r, e, found) = index_from-IsLookup (k + 1) svs h in
      elim (Bool-cases (same_name alias vname)) [
        | inr other ↦ (
          r,
          rw (index_from, its, other) e,
          IsLookup-cons k sv svs r
              (λ j at named.
                (let equal : alias ≡ vname = some_cancel (sym its ∙ at) in
                  no_true (ap (λ x. same_name x vname) equal ∙ same_name_refl vname) other))
              found,
        )
        | inl same ↦ elim (Option-cases (index_of name 0 sv.signal)) [
          | inl absent ↦ (
            r,
            rw (index_from, its, same, vector_index, absent) e,
            IsLookup-cons k sv svs r (λ j at named. index_of-absent name 0 j sv.signal absent named)
                found,
          )
          | inr (j, hit) ↦
              let (le, at) = index_of-at name 0 j sv.signal hit in
              let from_first : j - 0 ≡ j = omega arith in
              let sum : k ≡ k + 0 = omega arith in
              (
                some (record { vector = k; signal = some j }),
                rw (index_from, its, same, vector_index, hit) refl,
                inr (
                  0,
                  j,
                  sv,
                  ap (λ n. some (record { vector = n; signal = some j })) sum,
                  refl,
                  its ∙ ap some (same_name_eq alias vname same),
                  subst (λ m. get_elem? sv.signal m ≡ some name) from_first at,
                ),
              )
        ]
      ]

-- When all vectors have an alias, a lookup by alias and name has no fault. What it finds is a vector
-- of the alias and a signal of the name in it; when it finds nothing, no vector of the alias has a
-- signal of the name.
pub model_index-IsLookup :
    (svs : List SignalVector) (vname name : List ℕ)
    → All HasAlias svs
    → (r : Option ModelSignalIndex) × (model_index svs vname (some name) ≡ some r)
      × IsLookup vname name 0 svs r
unfolding model_index
model_index-IsLookup svs vname name h = index_from-IsLookup vname name 0 svs h
