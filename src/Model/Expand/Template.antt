-- ===== src/Model/Expand/Template.antt =====
-- What model_expand_vars() of dse/modelc/model/model.c makes of a source that is written as a
-- template: texts and variables in turn.
use dse_modelc.Base.{
  ℕ, zero, suc, ◌<◌, ◌≡◌, refl, true, false, Option, none, some, List, [], ◌∷◌, ◌++◌, arith, ap,
  ◌∙◌, length, length-append, All, ◌==◌,
}
use dse_modelc.Model.Expand.{
  strip, strstr, strncat, lookup_var, expand_var, expand_next, expand_loop, model_expand_vars,
}

abbrev pub IsFree : ℕ → List ℕ → Type 0
IsFree c s = All (λ d. (c == d) ≡ false) s

-- A text and the variable after it, without '$' in the text and '}' in the variable.
abbrev pub IsPiece : List ℕ × List ℕ → Type 0
IsPiece p = IsFree 36 p.0 × IsFree 125 p.1

-- The source.
abbrev pub print : List (List ℕ × List ℕ) → List ℕ → List ℕ
print [] tail = tail
print (p ∷ ps) tail = p.0 ++ 36 ∷ 123 ∷ (p.1 ++ 125 ∷ print ps tail)

-- The text stays, the variable is looked up, and what does not fit is cut.
abbrev pub fill : (List ℕ → List ℕ) → List ℕ → List (List ℕ × List ℕ) → List ℕ → List ℕ
fill lookup result [] tail = strncat result tail
fill lookup result (p ∷ ps) tail = fill lookup (strncat (strncat result p.0) (lookup p.1)) ps tail

strstr_absent : (c : ℕ) (needle s : List ℕ) → IsFree c s → strstr (c ∷ needle) s ≡ none
unfolding strstr strip
strstr_absent c needle [] free = refl
strstr_absent c needle (d ∷ s) (miss, free) =
    rw (strstr, strip, miss, strstr_absent c needle s free)

strstr_end :
    (c : ℕ) (before s : List ℕ)
    → IsFree c before
    → (c == c) ≡ true
    → strstr (c ∷ []) (before ++ c ∷ s) ≡ some (before, s)
unfolding strstr strip
strstr_end c [] s free same = rw (strstr, strip, same)
strstr_end c (d ∷ before) s (miss, free) same =
    rw (strstr, strip, miss, strstr_end c before s free same)

strstr_start :
    (before s : List ℕ)
    → IsFree 36 before
    → strstr (36 ∷ 123 ∷ []) (before ++ 36 ∷ 123 ∷ s) ≡ some (before, s)
unfolding strstr strip
strstr_start [] s free = refl
strstr_start (d ∷ before) s (miss, free) = rw (strstr, strip, miss, strstr_start before s free)

module _ (getenv : List ℕ → Option (List ℕ)) (toupper : ℕ → ℕ) (name : Option (List ℕ)) where
  expand_loop-print :
      (ps : List (List ℕ × List ℕ)) (tail : List ℕ) (rounds : ℕ) (result : List ℕ)
      → All IsPiece ps
      → IsFree 36 tail
      → length (print ps tail) < rounds
      → expand_loop getenv toupper name rounds result (print ps tail)
        ≡ some (fill (lookup_var getenv toupper name) result ps tail)
  unfolding expand_loop expand_next expand_var
  expand_loop-print ps tail zero result pieces free enough = absurd (omega arith)
  expand_loop-print [] tail (suc rounds) result pieces free enough =
      let absent = strstr_absent 36 (123 ∷ []) tail free in
      let last : expand_next getenv toupper name result tail ≡ (strncat result tail, none) =
        rw (expand_next, absent) in
      rw (expand_loop, last) (ap (λ r. some r.0) last)
  expand_loop-print ((text, var) ∷ ps) tail (suc rounds) result ((plain, closed), pieces) free
        enough =
      let rest = print ps tail in
      let start = strstr_start text (var ++ 125 ∷ rest) plain in
      let end = strstr_end 125 var rest closed refl in
      let result' = strncat (strncat result text) (lookup_var getenv toupper name var) in
      let fewer : length rest < rounds = omega (
        arith,
        length-append text (36 ∷ 123 ∷ (var ++ 125 ∷ rest)),
        length-append var (125 ∷ rest),
      ) in
      let step : expand_next getenv toupper name result (text ++ 36 ∷ 123 ∷ (var ++ 125 ∷ rest))
          ≡ (result', some rest) =
        rw (expand_next, start, expand_var, end) in
      rw (expand_loop, step)
        (ap (λ r. expand_loop getenv toupper name rounds r.0 rest) step
          ∙ expand_loop-print ps tail rounds result' pieces free fewer)

  -- A source of texts without '$' and variables without '}' in turn is expanded by
  -- model_expand_vars() to the texts, which stay, and the values that the variables are looked up
  -- to, in their order, each cut at EXPAND_VAR_MAXLEN characters of the result.
  pub model_expand_vars-print :
      (ps : List (List ℕ × List ℕ)) (tail : List ℕ)
      → All IsPiece ps
      → IsFree 36 tail
      → model_expand_vars getenv toupper name (print ps tail)
        ≡ some (fill (lookup_var getenv toupper name) [] ps tail)
  unfolding model_expand_vars
  model_expand_vars-print ps tail pieces free =
      expand_loop-print ps tail (suc (length (print ps tail))) [] pieces free (omega arith)
