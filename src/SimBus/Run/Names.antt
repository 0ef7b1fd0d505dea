-- ===== src/SimBus/Run/Names.antt =====
-- Signals by their names: found, set and added.
use dse_modelc.Base.{
  ℕ, zero, suc, ◌+◌, ◌-◌, ◌≤◌, ◌≡◌, ◌≢◌, refl, sym, ap, subst, ◌∙◌, inl, inr, true, none, some,
  List, [], ◌∷◌, ◌++◌, arith, All, Bool-cases, none≢some, some_cancel, length, get_elem?, set,
}
use dse_modelc.SimBus.{SignalValue}
use dse_modelc.SimBus.Index.{same_name, position_by_name}
use dse_modelc.Model.Schema.Match.{same_name_eq, same_name_refl}

module _ {D : Type 0} where
  -- Each name is there once.
  abbrev pub HasNames : List (SignalValue D) → Type 0
  HasNames [] = Unit
  HasNames (sv ∷ svs) = All (λ t. t.name ≢ sv.name) svs × HasNames svs

  pub position-found :
      (name : List ℕ) (k i : ℕ) (svs : List (SignalValue D))
      → position_by_name name k svs ≡ some i
      → (k ≤ i) × ((sv : SignalValue D) × (get_elem? svs (i - k) ≡ some sv) × (sv.name ≡ name))
  unfolding position_by_name
  position-found name k i [] e = absurd (none≢some e)
  position-found name k i (sv ∷ svs) e = elim (Bool-cases (same_name sv.name name)) [
    | inl hit ↦
        let here : k ≡ i = some_cancel (rw (position_by_name, hit) at e) in
        let first : 0 ≡ i - k = omega arith in
        (
          omega arith,
          (
            sv,
            subst (λ j. get_elem? (sv ∷ svs) j ≡ some sv) first refl,
            same_name_eq sv.name name hit,
          ),
        )
    | inr miss ↦
        let (le, (sv', at, same)) =
          position-found name (k + 1) i svs (rw (position_by_name, miss) at e) in
        let next : suc (i - (k + 1)) ≡ i - k = omega arith in
        (omega arith, (sv', subst (λ j. get_elem? (sv ∷ svs) j ≡ some sv') next at, same))
  ]

  pub position-none :
      (name : List ℕ) (k : ℕ) (svs : List (SignalValue D))
      → position_by_name name k svs ≡ none
      → All (λ sv. sv.name ≢ name) svs
  unfolding position_by_name
  position-none name k [] e = tt
  position-none name k (sv ∷ svs) e = elim (Bool-cases (same_name sv.name name)) [
    | inl hit ↦ absurd (none≢some (sym (rw (position_by_name, hit) at e)))
    | inr miss ↦ (
      λ same.
          let hit : same_name sv.name name ≡ true =
            subst (λ n. same_name sv.name n ≡ true) same (same_name_refl sv.name) in
          absurd (ground arith),
      position-none name (k + 1) svs (rw (position_by_name, miss) at e),
    )
  ]

  pub get-All :
      (Q : SignalValue D → Type 0) (svs : List (SignalValue D)) (i : ℕ) (sv : SignalValue D)
      → All Q svs
      → get_elem? svs i ≡ some sv
      → Q sv
  get-All Q [] i sv h at = absurd (none≢some at)
  get-All Q (x ∷ svs) zero sv h at = subst Q (some_cancel at) h.0
  get-All Q (x ∷ svs) (suc i) sv h at = get-All Q svs i sv h.1 at

  pub set-All :
      (Q : SignalValue D → Type 0) (svs : List (SignalValue D)) (i : ℕ) (new : SignalValue D)
      → Q new
      → All Q svs
      → All Q (set svs i new)
  set-All Q [] i new q h = tt
  set-All Q (x ∷ svs) zero new q h = (q, h.1)
  set-All Q (x ∷ svs) (suc i) new q h = (h.0, set-All Q svs i new q h.1)

  set-apart :
      (n : List ℕ) (svs : List (SignalValue D)) (i : ℕ) (sv new : SignalValue D)
      → get_elem? svs i ≡ some sv
      → new.name ≡ sv.name
      → All (λ t. t.name ≢ n) svs
      → All (λ t. t.name ≢ n) (set svs i new)
  set-apart n [] i sv new at same h = tt
  set-apart n (x ∷ svs) zero sv new at same h =
      ((λ e. h.0 (ap (λ t. t.name) (some_cancel at) ∙ sym same ∙ e)), h.1)
  set-apart n (x ∷ svs) (suc i) sv new at same h = (h.0, set-apart n svs i sv new at same h.1)

  pub set-HasNames :
      (svs : List (SignalValue D)) (i : ℕ) (sv new : SignalValue D)
      → get_elem? svs i ≡ some sv
      → new.name ≡ sv.name
      → HasNames svs
      → HasNames (set svs i new)
  set-HasNames [] i sv new at same h = tt
  set-HasNames (x ∷ svs) zero sv new at same h =
      let first : x.name ≡ new.name = ap (λ t. t.name) (some_cancel at) ∙ sym same in
      (subst (λ n. All (λ t. t.name ≢ n) svs) first h.0, h.1)
  set-HasNames (x ∷ svs) (suc i) sv new at same h =
      (set-apart x.name svs i sv new at same h.0, set-HasNames svs i sv new at same h.1)

  pub append-All :
      (Q : SignalValue D → Type 0) (svs : List (SignalValue D)) (new : SignalValue D)
      → All Q svs
      → Q new
      → All Q (svs ++ new ∷ [])
  append-All Q [] new h q = (q, tt)
  append-All Q (sv ∷ svs) new h q = (h.0, append-All Q svs new h.1 q)

  pub append-HasNames :
      (svs : List (SignalValue D)) (new : SignalValue D)
      → HasNames svs
      → All (λ sv. sv.name ≢ new.name) svs
      → HasNames (svs ++ new ∷ [])
  append-HasNames [] new h apart = (tt, tt)
  append-HasNames (sv ∷ svs) new h apart = (
    append-All (λ t. t.name ≢ sv.name) svs new h.0 (λ e. apart.0 (sym e)),
    append-HasNames svs new h.1 apart.1,
  )

  pub last_at :
      (svs : List (SignalValue D)) (new : SignalValue D)
      → get_elem? (svs ++ new ∷ []) (length svs) ≡ some new
  last_at [] new = refl
  last_at (sv ∷ svs) new = last_at svs new
