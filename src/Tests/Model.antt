-- ===== src/Tests/Model.antt =====
-- A gateway and a library whose steps advance a clock of whole numbers.
use dse_modelc.Base.{
  ℕ, suc, ◌+◌, ◌-◌, ◌<◌, ◌≡◌, ◌⊎◌, refl, inl, true, false, none, some, [], ◌∷◌, leb, ltb, ◌==◌,
  if◌then◌else◌, List, Option, length, ◌≤◌,
}
use dse_modelc.Model.Gateway.{
  Sync, gateway_behind, adjusted, model_gw_sync, after_syncs, end_result, model_gw_sync-due,
}
use dse_modelc.Model.Mcl.{Mcl, MclVtable}
use dse_modelc.Model.Mcl.Blocks.{
  source_blocks, expand, IsPartition, HasNewKinds, source_blocks-IsPartition,
}
use dse_modelc.Model.Expand.{
  model_expand_vars, expand_loop, expand_next, expand_var, lookup_var, search_var, search, strncat,
  strstr, strip, expand_var_maxlen, model_expand_vars-fits,
}
use dse_modelc.Model.Expand.Template.{print, fill, model_expand_vars-print}
use dse_modelc.Tests.Common.{whole}

-- Each sync moves the time by 5.
abbrev by_five : Sync ℕ ℕ
by_five = record { sync = λ w. (0, w + 5); model_time = λ w. w }

gateway_example :
    ((ltb (adjusted whole 1 20) 3 ≡ true)
      × (model_gw_sync whole by_five 7 1 20 3 ≡ some (gateway_behind, 3)))
    ⊎ ((ltb (adjusted whole 1 20) 3 ≡ false)
        × (((4 < 7)
              × (model_gw_sync whole by_five 7 1 20 3
                  ≡ some (
                      end_result whole by_five
                        (adjusted whole 1 20)
                        (after_syncs whole by_five 4 3))))
            ⊎ ((7 ≤ 4) × (model_gw_sync whole by_five 7 1 20 3 ≡ none))))
unfolding adjusted
gateway_example =
    model_gw_sync-due whole by_five 1 20 3 4
      (refl, refl, (refl, refl, (refl, refl, (refl, refl, tt)))) (inl refl) 7

-- A library that steps to the stop time.
abbrev obedient : Mcl ℕ ℕ → ℕ → ℕ → ℕ × ℕ × Mcl ℕ ℕ
obedient m time stop = (0, stop, record m { state = suc m.state })

abbrev library : MclVtable ℕ ℕ
library = record {
  load = none;
  init = none;
  step = some obedient;
  marshal_out = some (λ m. (0, m));
  marshal_in = some (λ m. (0, m));
  signalmap_out = λ m. m;
  signalmap_in = λ m. m;
}

abbrev foreign : Mcl ℕ ℕ
foreign = record { sv = []; step_size = 5; model_time = 3; model_time_correction = 0; state = 0 }

blocks_example :
    (expand (source_blocks (1 ∷ 1 ∷ 4 ∷ 1 ∷ [])) ≡ 1 ∷ 1 ∷ 4 ∷ 1 ∷ [])
    × IsPartition 0 (source_blocks (1 ∷ 1 ∷ 4 ∷ 1 ∷ []))
    × HasNewKinds (source_blocks (1 ∷ 1 ∷ 4 ∷ 1 ∷ []))
blocks_example = source_blocks-IsPartition (1 ∷ 1 ∷ 4 ∷ 1 ∷ [])

-- The environment has a variable M__A of the value xy.
abbrev environment : List ℕ → Option (List ℕ)
environment v = elim (strip (77 ∷ 95 ∷ 95 ∷ 65 ∷ []) v) [
  | some rest ↦ if length rest == 0 then some (120 ∷ 121 ∷ []) else none
  | none ↦ none
]

abbrev upper : ℕ → ℕ
upper c = if leb 97 c then c - 32 else c

-- b${a} of the instance m is bxy, and without an instance ba; ${a:-z} is z; b${a is bb.
expand_tests :
    (model_expand_vars environment upper (some (109 ∷ [])) (98 ∷ 36 ∷ 123 ∷ 97 ∷ 125 ∷ [])
      ≡ some (98 ∷ 120 ∷ 121 ∷ []))
    × (model_expand_vars environment upper none (98 ∷ 36 ∷ 123 ∷ 97 ∷ 125 ∷ [])
        ≡ some (98 ∷ 97 ∷ []))
    × (model_expand_vars environment upper none (36 ∷ 123 ∷ 97 ∷ 58 ∷ 45 ∷ 122 ∷ 125 ∷ [])
        ≡ some (122 ∷ []))
    × (model_expand_vars environment upper none (98 ∷ 36 ∷ 123 ∷ 97 ∷ []) ≡ some (98 ∷ 98 ∷ []))
unfolding model_expand_vars expand_loop expand_next expand_var lookup_var search_var search strncat
    strstr strip
expand_tests = (refl, refl, refl, refl)

expand_example :
    (out : List ℕ) × (model_expand_vars environment upper
        (some (109 ∷ []))
        (98 ∷ 36 ∷ 123 ∷ 97 ∷ 125 ∷ [])
      ≡ some out)
    × (length out ≤ expand_var_maxlen)
expand_example =
    model_expand_vars-fits environment upper (some (109 ∷ [])) (98 ∷ 36 ∷ 123 ∷ 97 ∷ 125 ∷ [])

-- b${a}c
template_example :
    model_expand_vars environment upper
      (some (109 ∷ []))
      (print ((98 ∷ [], 97 ∷ []) ∷ []) (99 ∷ []))
    ≡ some (
        fill
          (lookup_var environment upper (some (109 ∷ [])))
          []
          ((98 ∷ [], 97 ∷ []) ∷ [])
          (99 ∷ []))
template_example =
    model_expand_vars-print environment upper (some (109 ∷ [])) ((98 ∷ [], 97 ∷ []) ∷ []) (99 ∷ [])
      (((refl, tt), (refl, tt)), tt) (refl, tt)
