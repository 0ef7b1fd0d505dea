-- ===== src/Model/Schema/Match.antt =====
-- Which documents a selector selects, and what a search does with them.
use dse_modelc.Base.{
  ℕ, ◌≤◌, ◌≡◌, ◌↔◌, refl, sym, ap, ◌∙◌, inl, inr, true, Option, none, some, List, [], ◌∷◌, arith,
  subst, All, Bool-cases, Option-cases, some_cancel, none≢some, ==_iff, length,
}
use dse_modelc.SimBus.Index.{same_name}
use dse_modelc.Model.Schema.{
  Document, Selector, scalar_matches, find_label, label_matches, match_count, labels_match, selects,
}

pub same_name_refl : (s : List ℕ) → same_name s s ≡ true
unfolding same_name
same_name_refl [] = refl
same_name_refl (c ∷ s) = ground (arith, same_name_refl s)

pub same_name_eq : (s t : List ℕ) → same_name s t ≡ true → s ≡ t
unfolding same_name
same_name_eq [] [] e = refl
same_name_eq [] (d ∷ t) e = absurd (ground arith)
same_name_eq (c ∷ s) [] e = absurd (ground arith)
same_name_eq (c ∷ s) (d ∷ t) e =
    let head : c ≡ d = ground arith in
    let tail : same_name s t ≡ true = ground arith in let rest = same_name_eq s t tail in cc

-- The node has the scalar that is wanted, if one is.
abbrev pub HasScalar : Option (List ℕ) → Option (List ℕ) → Type 0
HasScalar none scalar = Unit
HasScalar (some wanted) scalar = scalar ≡ some wanted

-- The label has a name and a value, and the document gives it this value.
abbrev pub HasLabel : List (List ℕ × Option (List ℕ)) → Option (List ℕ) × Option (List ℕ) → Type 0
HasLabel ls l =
    (name : List ℕ) × (value : List ℕ) × (l ≡ (some name, some value))
    × (find_label name ls ≡ some value)

abbrev pub HasLabels :
    Option (List (List ℕ × Option (List ℕ))) → List (Option (List ℕ) × Option (List ℕ)) → Type 0
HasLabels labels [] = Unit
HasLabels labels (l ∷ wanted) =
    (ls : List (List ℕ × Option (List ℕ))) × (labels ≡ some ls) × All (HasLabel ls) (l ∷ wanted)

abbrev pub IsSelected : Selector → Document → Type 0
IsSelected s d = HasScalar s.kind d.kind × HasScalar s.name d.name × HasLabels d.labels s.labels

scalar_matches_iff :
    (wanted scalar : Option (List ℕ))
    → (scalar_matches wanted scalar ≡ true) ↔ HasScalar wanted scalar
unfolding scalar_matches
scalar_matches_iff none scalar = (λ e. tt, λ h. refl)
scalar_matches_iff (some w) none = (λ e. absurd (ground arith), λ h. absurd (none≢some h))
scalar_matches_iff (some w) (some n) = (
  λ e. ap some (same_name_eq n w e),
  λ h. ap (λ x. same_name x w) (some_cancel h) ∙ same_name_refl w,
)

label_matches_iff :
    (ls : List (List ℕ × Option (List ℕ))) (l : Option (List ℕ) × Option (List ℕ))
    → (label_matches ls l ≡ true) ↔ HasLabel ls l
unfolding label_matches
label_matches_iff ls (none, value) =
    (λ e. absurd (ground arith), λ (n, v, e, f). absurd (ground arith))
label_matches_iff ls (some name, none) =
    (λ e. absurd (ground arith), λ (n, v, e, f). absurd (ground arith))
label_matches_iff ls (some name, some value) = elim (Option-cases (find_label name ls)) [
  | inl absent ↦
      rw (label_matches, absent)
        (
          λ e. absurd (ground arith),
          λ (n, v, e, f).
              let same : name ≡ n = cc in
              absurd (none≢some (sym absent ∙ ap (λ x. find_label x ls) same ∙ f)),
        )
  | inr (scalar, found) ↦ (
    λ e. (
      name,
      value,
      refl,
      found ∙ ap some (same_name_eq scalar value (rw (label_matches, found) at e)),
    ),
    λ (n, v, e, f).
        (let same : name ≡ n = cc in
          let its : value ≡ v = cc in
          let at : some scalar ≡ some v = sym found ∙ ap (λ x. find_label x ls) same ∙ f in
          let equal : scalar ≡ value = some_cancel at ∙ sym its in
          rw (label_matches, found, equal) (same_name_refl value)),
  )
]

match_count-le :
    (ls : List (List ℕ × Option (List ℕ))) (wanted : List (Option (List ℕ) × Option (List ℕ)))
    → match_count ls wanted ≤ length wanted
unfolding match_count
match_count-le ls [] = omega arith
match_count-le ls (l ∷ wanted) =
    let rest = match_count-le ls wanted in
    elim (Bool-cases (label_matches ls l)) [
      | inl e ↦ rw e (omega arith)
      | inr e ↦ rw e (omega arith)
    ]

-- All labels match if as many do as there are.
match_count_iff :
    (ls : List (List ℕ × Option (List ℕ))) (wanted : List (Option (List ℕ) × Option (List ℕ)))
    → (match_count ls wanted ≡ length wanted) ↔ All (HasLabel ls) wanted
unfolding match_count
match_count_iff ls [] = (λ e. tt, λ h. refl)
match_count_iff ls (l ∷ wanted) =
    let rest = match_count_iff ls wanted in
    let le = match_count-le ls wanted in
    let one = label_matches_iff ls l in
    elim (Bool-cases (label_matches ls l)) [
      | inl hit ↦
          rw hit (λ e. (one.0 hit, rest.0 (omega arith)), λ h. let all = rest.1 h.1 in omega arith)
      | inr miss ↦ rw miss (
        λ e. absurd (omega arith),
        λ h. absurd (let found : label_matches ls l ≡ true = one.1 h.0 in ground arith),
      )
    ]

labels_match_iff :
    (labels : Option (List (List ℕ × Option (List ℕ))))
    (wanted : List (Option (List ℕ) × Option (List ℕ)))
    → (labels_match labels wanted ≡ true) ↔ HasLabels labels wanted
unfolding labels_match
labels_match_iff labels [] = (λ e. tt, λ h. refl)
labels_match_iff none (l ∷ wanted) = (λ e. absurd (ground arith), λ h. absurd (none≢some h.1))
labels_match_iff (some ls) (l ∷ wanted) =
    let count = match_count_iff ls (l ∷ wanted) in
    let test = ==_iff (match_count ls (l ∷ wanted)) (length (l ∷ wanted)) in
    (
      λ e. (ls, refl, count.0 (test.0 e)),
      λ h. test.1 (
          let same : ls ≡ h.0 = some_cancel h.1 in
          count.1 (subst (λ x. All (HasLabel x) (l ∷ wanted)) (sym same) h.2)),
    )

-- A selector selects exactly the documents that have its kind and its name, where it gives them, and
-- every label of it, with a name and a value, with that value.
pub selects_iff : (s : Selector) (d : Document) → (selects s d ≡ true) ↔ IsSelected s d
unfolding selects
selects_iff s d =
    let kind = scalar_matches_iff s.kind d.kind in
    let name = scalar_matches_iff s.name d.name in
    let labels = labels_match_iff d.labels s.labels in
    (
      λ e. (kind.0 (ground arith), name.0 (ground arith), labels.0 (ground arith)),
      λ (k, n, l).
          let e1 = kind.1 k in let e2 = name.1 n in let e3 = labels.1 l in rw (e1, e2, e3) refl,
    )
