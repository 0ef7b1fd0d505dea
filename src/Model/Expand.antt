-- ===== src/Model/Expand.antt =====
-- The expansion of environment variables in a string: model_expand_vars() of
-- dse/modelc/model/model.c. A string is the list of its characters; getenv() and toupper() are
-- given.
pub mod Template
use dse_modelc.Base.{
  ℕ, zero, suc, ◌-◌, ◌≤◌, ◌<◌, ◌≡◌, inl, inr, Option, none, some, List, [], ◌∷◌, ◌++◌, map, arith,
  Bool-cases, Option-cases, some_cancel, none≢some, bind_some, length, take, take-le, length-append,
  sym, ap, ◌==◌, ◌>>=◌, if◌then◌else◌,
}

-- What follows a prefix.
unfoldable pub strip : List ℕ → List ℕ → Option (List ℕ)
strip [] s = some s
strip (c ∷ needle) [] = none
strip (c ∷ needle) (d ∷ s) = if c == d then strip needle s else none

-- strstr() for a needle that is not empty: what is before and after it.
unfoldable pub strstr : List ℕ → List ℕ → Option (List ℕ × List ℕ)
strstr needle [] = none
strstr needle (c ∷ s) = elim (strip needle (c ∷ s)) [
  | some after ↦ some ([], after)
  | none ↦ strstr needle s >>= (λ r. some (c ∷ r.0, r.1))
]

abbrev pub expand_var_maxlen : ℕ
expand_var_maxlen = 1023

abbrev pub varname_maxlen : ℕ
varname_maxlen = 250

-- strncat(result, s, EXPAND_VAR_MAXLEN - strlen(result))
unfoldable pub strncat : List ℕ → List ℕ → List ℕ
strncat result s = result ++ take (expand_var_maxlen - length result) s

-- `name` is the name of the model instance, if there is one.
module _ (getenv : List ℕ → Option (List ℕ)) (toupper : ℕ → ℕ) (name : Option (List ℕ)) where
  -- The buffer of snprintf() ends with '\0'.
  unfoldable pub search : List ℕ → Option (List ℕ)
  search v = getenv (map toupper (take (varname_maxlen - 1) v))

  -- With no match the default, else the variable's own name.
  unfoldable pub search_var : List ℕ → Option (List ℕ) → List ℕ
  search_var var default = elim (name >>= (λ n. search (n ++ 95 ∷ 95 ∷ var))) [
    | some value ↦ value
    | none ↦ elim (search var) [
      | some value ↦ value
      | none ↦ elim default [ some value ↦ value | none ↦ var ]
    ]
  ]

  -- Does the variable have a default?
  unfoldable pub lookup_var : List ℕ → List ℕ
  lookup_var var = elim (strstr (58 ∷ 45 ∷ []) var) [
    | some (var', default) ↦ search_var var' (some default)
    | none ↦ search_var var none
  ]

  -- Without an end, the characters before the start are copied once more.
  unfoldable pub expand_var : List ℕ → List ℕ → List ℕ → List ℕ × Option (List ℕ)
  expand_var result before var = elim (strstr (125 ∷ []) var) [
    | some (inner, haystack) ↦ (strncat result (lookup_var inner), some haystack)
    | none ↦ (strncat result before, none)
  ]

  -- One iteration: the result, and the haystack of the next one unless the loop ends.
  unfoldable pub expand_next : List ℕ → List ℕ → List ℕ × Option (List ℕ)
  expand_next result haystack = elim (strstr (36 ∷ 123 ∷ []) haystack) [
    | some (before, var) ↦ expand_var (strncat result before) before var
    | none ↦ (strncat result haystack, none)
  ]

  -- `rounds` bounds the iterations.
  unfoldable pub expand_loop : ℕ → List ℕ → List ℕ → Option (List ℕ)
  expand_loop zero result haystack = none
  expand_loop (suc rounds) result haystack =
      let (result', next) = expand_next result haystack in
      elim next [ some haystack' ↦ expand_loop rounds result' haystack' | none ↦ some result' ]

  -- Each iteration but the last takes the start and the end of a variable.
  unfoldable pub model_expand_vars : List ℕ → Option (List ℕ)
  model_expand_vars source = expand_loop (suc (length source)) [] source

strip-shorter : (needle s after : List ℕ) → strip needle s ≡ some after → length after ≤ length s
unfolding strip
strip-shorter [] s after e = let same : s ≡ after = some_cancel e in rw same (omega arith)
strip-shorter (c ∷ needle) [] after e = absurd (none≢some e)
strip-shorter (c ∷ needle) (d ∷ s) after e = elim (Bool-cases (c == d)) [
  | inl hit ↦ let rest = strip-shorter needle s after (rw (strip, hit) at e) in omega arith
  | inr miss ↦ absurd (none≢some (rw (strip, miss) at e))
]

strip-shorter_nonempty :
    (c : ℕ) (needle : List ℕ) (d : ℕ) (s after : List ℕ)
    → strip (c ∷ needle) (d ∷ s) ≡ some after
    → length after ≤ length s
unfolding strip
strip-shorter_nonempty c needle d s after e = elim (Bool-cases (c == d)) [
  | inl hit ↦ strip-shorter needle s after (rw (strip, hit) at e)
  | inr miss ↦ absurd (none≢some (rw (strip, miss) at e))
]

strstr-shorter :
    (c : ℕ) (needle s before after : List ℕ)
    → strstr (c ∷ needle) s ≡ some (before, after)
    → length after < length s
unfolding strstr
strstr-shorter c needle [] before after e = absurd (none≢some e)
strstr-shorter c needle (d ∷ s) before after e = elim (Option-cases (strip (c ∷ needle) (d ∷ s))) [
  | inr (rest, here) ↦
      let first : List ℕ × List ℕ = ([], rest) in
      let found : some first ≡ some (before, after) = rw (strstr, here) at e in
      let same : rest ≡ after = ap (λ p. p.1) (some_cancel found) in
      let le = strip-shorter_nonempty c needle d s rest here in rw (sym same) (omega arith)
  | inl absent ↦
      let later : strstr (c ∷ needle) s >>= (λ r. some (d ∷ r.0, r.1)) ≡ some (before, after) =
        rw (strstr, absent) at e in
      let (r, found, e') = bind_some (strstr (c ∷ needle) s) (λ r. some (d ∷ r.0, r.1)) later in
      let same : r.1 ≡ after = ap (λ p. p.1) (some_cancel e') in
      let found' : strstr (c ∷ needle) s ≡ some (r.0, r.1) = found in
      let lt : length r.1 < length s = strstr-shorter c needle s r.0 r.1 found' in
      rw (sym same) (omega arith)
]

strncat-fits :
    (result s : List ℕ)
    → length result ≤ expand_var_maxlen
    → length (strncat result s) ≤ expand_var_maxlen
unfolding strncat
strncat-fits result s fits = omega (
  arith,
  length-append result (take (expand_var_maxlen - length result) s),
  take-le (expand_var_maxlen - length result) s,
)

module _ (getenv : List ℕ → Option (List ℕ)) (toupper : ℕ → ℕ) (name : Option (List ℕ)) where
  -- The result fits, and the haystack of a next iteration is shorter.
  expand_next-fits :
      (result haystack : List ℕ)
      → length result ≤ expand_var_maxlen
      → let r = expand_next getenv toupper name result haystack in
        (length r.0 ≤ expand_var_maxlen)
        × ((rest : List ℕ) → r.1 ≡ some rest → length rest < length haystack)
  unfolding expand_next expand_var
  expand_next-fits result haystack fits = elim (Option-cases (strstr (36 ∷ 123 ∷ []) haystack)) [
    | inl absent ↦
        rw (expand_next, absent) (strncat-fits result haystack fits, λ rest e. absurd (none≢some e))
    | inr ((before, var), start) ↦
        let first = strncat-fits result before fits in
        let shorter = strstr-shorter 36 (123 ∷ []) haystack before var start in
        elim (Option-cases (strstr (125 ∷ []) var)) [
          | inl unclosed ↦
              rw (expand_next, start, expand_var, unclosed)
                (strncat-fits (strncat result before) before first, λ rest e. absurd (none≢some e))
          | inr ((inner, after), end) ↦
              let value = lookup_var getenv toupper name inner in
              let less = strstr-shorter 125 [] var inner after end in
              rw (expand_next, start, expand_var, end)
                (
                  strncat-fits (strncat result before) value first,
                  λ rest e.
                      (let same : after ≡ rest = some_cancel e in rw (sym same) (omega arith)),
                )
        ]
  ]

  expand_loop-fits :
      (rounds : ℕ) (result haystack : List ℕ)
      → length haystack < rounds
      → length result ≤ expand_var_maxlen
      → (out : List ℕ) × (expand_loop getenv toupper name rounds result haystack ≡ some out)
        × (length out ≤ expand_var_maxlen)
  unfolding expand_loop
  expand_loop-fits zero result haystack enough fits = absurd (omega arith)
  expand_loop-fits (suc rounds) result haystack enough fits =
      let r = expand_next getenv toupper name result haystack in
      let (fits', shorter) = expand_next-fits result haystack fits in
      elim (Option-cases r.1) [
        | inl ends ↦ (r.0, rw (expand_loop, ends), fits')
        | inr (rest, next) ↦
            let less : length rest < length haystack = shorter rest next in
            rw (expand_loop, next) (expand_loop-fits rounds r.0 rest (omega arith) fits')
      ]

  -- model_expand_vars() ends for every source and every environment, with a result of at most
  -- EXPAND_VAR_MAXLEN characters.
  pub model_expand_vars-fits :
      (source : List ℕ)
      → (out : List ℕ) × (model_expand_vars getenv toupper name source ≡ some out)
        × (length out ≤ expand_var_maxlen)
  unfolding model_expand_vars
  model_expand_vars-fits source =
      expand_loop-fits (suc (length source)) [] source (omega arith) (omega arith)
