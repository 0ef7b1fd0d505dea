-- ===== src/Controller/Step/Result.antt =====
-- What becomes of the codes that the models' step functions return.
use dse_modelc.Base.{
  ℕ, zero, suc, ◌+◌, ◌≡◌, refl, ap, ◌∙◌, true, false, Option, some, List, [], ◌∷◌, ◌++◌, map, arith,
  leb, ◌^◌, get_elem?, set, length, length-append, ◌==◌, ◌>>=◌,
}
use dse_modelc.Double.{Double}
use dse_modelc.Controller.{ModelInstance, Simulation}
use dse_modelc.Controller.Transform.{LuaCalls}
use dse_modelc.Controller.Step.{
  ModelVtable, Stepped, do_step_func, step_functions, step_model, before_step, after_step,
  step_instances, sim_step_models,
}

get_elem?-middle :
    {A : Type 0} (pre : List A) (x : A) (xs : List A)
    → get_elem? (pre ++ x ∷ xs) (length pre) ≡ some x
get_elem?-middle [] x xs = refl
get_elem?-middle (y ∷ pre) x xs = get_elem?-middle pre x xs

set-middle :
    {A : Type 0} (pre : List A) (x y : A) (xs : List A)
    → set (pre ++ x ∷ xs) (length pre) y ≡ (pre ++ y ∷ []) ++ xs
set-middle [] x y xs = refl
set-middle (z ∷ pre) x y xs = ap (λ zs. z ∷ zs) (set-middle pre x y xs)

map-append : {A B : Type 0} (f : A → B) (xs ys : List A) → map f (xs ++ ys) ≡ map f xs ++ map f ys
map-append f [] ys = refl
map-append f (x ∷ xs) ys = ap (λ zs. f x ∷ zs) (map-append f xs ys)

bind_at : {A B : Type 0} (f : A → Option B) {o : Option A} {a : A} → o ≡ some a → o >>= f ≡ f a
bind_at f e = rw e

-- An instance that is stepped moves to the front part.
shift :
    {D S : Type 0} (pre : List (ModelInstance D S)) (time : D) (mi : ModelInstance D S)
    → mi.model_time ≡ time
    → (mis : List (ModelInstance D S))
    → map (λ m. m.model_time) (pre ++ mi ∷ []) ++ map (λ m. m.stop_time) mis
      ≡ map (λ m. m.model_time) pre ++ time ∷ map (λ m. m.stop_time) mis
shift [] time mi e mis = ap (λ t. t ∷ map (λ m. m.stop_time) mis) e
shift (p ∷ pre) time mi e mis = ap (λ ts. p.model_time ∷ ts) (shift pre time mi e mis)

module _ {D S L : Type 0} (vtable : ModelVtable D L) where
  step_functions_rc :
      (count : ℕ) (l : L) (mi : ModelInstance D S) → (step_functions vtable count l mi).0 ≡ 0
  unfolding step_functions do_step_func
  step_functions_rc zero l mi = refl
  step_functions_rc (suc count) l mi =
      step_functions_rc count (do_step_func vtable l mi).2 (do_step_func vtable l mi).1

  step_model_rc : (l : L) (mi : ModelInstance D S) → (step_model vtable l mi).0 ≡ 0
  unfolding step_model
  step_model_rc l mi = step_functions_rc (length mi.model_functions) l mi

  step_model_time :
      (l : L) (mi : ModelInstance D S) → (step_model vtable l mi).1.model_time ≡ mi.stop_time
  unfolding step_model
  step_model_time l mi = refl

module _ {D S L : Type 0} (double : Double D) (lua : LuaCalls D L) (vtable : ModelVtable D L) where
  steps_all :
      (pre mis : List (ModelInstance D S)) (time : D) (l : L)
      → (s : Stepped D S L) × (step_instances double lua vtable false
            (length pre)
            (length mis)
            time
            l
            (pre ++ mis)
          ≡ some s)
        × (s.rc ≡ 0)
        × (map (λ mi. mi.model_time) s.instances
            ≡ map (λ mi. mi.model_time) pre ++ map (λ mi. mi.stop_time) mis)
  unfolding step_instances before_step after_step
  steps_all pre [] time l = (
    record { rc = 0; model_time = time; instances = pre ++ []; state = l },
    refl,
    refl,
    map-append (λ mi. mi.model_time) pre [],
  )
  steps_all pre (mi ∷ mis) time l =
      let r = step_model vtable l mi in
      let (s, e, ok, times) = steps_all (pre ++ r.1 ∷ []) mis mi.stop_time r.2 in
      let next : length (pre ++ r.1 ∷ []) ≡ length pre + 1 = length-append pre (r.1 ∷ []) in
      let here = get_elem?-middle pre mi mis in
      let success : (r.0 == 0) ≡ true = rw (step_model_rc vtable l mi) refl in
      let placed = set-middle pre mi r.1 mis in
      (
        s,
        bind_at _ here ∙ rw (success, placed) (rw next at e),
        ok,
        times ∙ shift pre mi.stop_time r.1 (step_model_time vtable l mi) mis,
      )

  -- Without sequential co-simulation the step of the models succeeds with the code 0 whatever codes
  -- the step functions of the models return, and the time of every instance is then its stop time,
  -- whatever model times the step functions say they have reached.
  pub sim_step_models-succeeds :
      (sim : Simulation D S) (time : D) (l : L)
      → sim.sequential_cosim ≡ false
      → (s : Stepped D S L) × (sim_step_models double lua vtable sim time l ≡ some s)
        × (s.rc ≡ 0)
        × (map (λ mi. mi.model_time) s.instances ≡ map (λ mi. mi.stop_time) sim.instances)
  unfolding sim_step_models
  sim_step_models-succeeds sim time l h =
      let (s, e, ok, times) = steps_all [] sim.instances time l in
      let small : leb (2 ^ 31) s.rc ≡ false = ground arith in
      let success : (s.rc == 0) ≡ true = ground arith in
      (s, rw (sim_step_models, h, e, small, success), ok, times)
