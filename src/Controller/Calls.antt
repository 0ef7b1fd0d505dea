-- ===== src/Controller/Calls.antt =====
-- The calls of the adapter for all instances of a simulation: adapter_connect(), adapter_register(),
-- adapter_model_ready(), adapter_model_start(), adapter_ready() and adapter_exit() of
-- dse/modelc/adapter/adapter.c. A function of the adapter's vtable that is missing is `none`.
use Prim.Native.Nat.{bit_or}
use dse_modelc.Base.{ℕ, Option, none, some, List, [], ◌∷◌}
use dse_modelc.Controller.{ModelInstance}

-- The code of a call, the instances and the state after it.
abbrev pub Called : (D S L : Type 0) → Type 0
Called D S L = ℕ × List (ModelInstance D S) × L

pub record AdapterVtable (D S L : Type 0) : Type 0 where
  -- For one instance.
  pub connect : Option (L → ModelInstance D S → ℕ × ModelInstance D S × L)
  pub register_ : Option (L → ModelInstance D S → ℕ × ModelInstance D S × L)
  pub exit : Option (L → ModelInstance D S → ℕ × ModelInstance D S × L)
  -- For all of them.
  pub ready : Option (L → List (ModelInstance D S) → Called D S L)
  pub start : Option (L → List (ModelInstance D S) → Called D S L)

abbrev pub einval : ℕ
einval = 22

module _ {D S L : Type 0} where
  -- A call for each instance; the code is the union of theirs.
  unfoldable pub each_instance :
      (L → ModelInstance D S → ℕ × ModelInstance D S × L)
      → L
      → List (ModelInstance D S)
      → Called D S L
  each_instance call l [] = (0, [], l)
  each_instance call l (mi ∷ mis) =
      let one = call l mi in
      let rest = each_instance call one.2 mis in (bit_or one.0 rest.0, one.1 ∷ rest.1, rest.2)

  unfoldable pub call_each :
      Option (L → ModelInstance D S → ℕ × ModelInstance D S × L)
      → L
      → List (ModelInstance D S)
      → Called D S L
  call_each none l mis = (0, mis, l)
  call_each (some call) l mis = each_instance call l mis

  -- A call through the first instance.
  unfoldable pub call_first :
      Option (L → List (ModelInstance D S) → Called D S L)
      → L
      → List (ModelInstance D S)
      → Called D S L
  call_first call l [] = (einval, [], l)
  call_first none l (mi ∷ mis) = (einval, mi ∷ mis, l)
  call_first (some call) l (mi ∷ mis) = call l (mi ∷ mis)

module _ {D S L : Type 0} (vtable : AdapterVtable D S L) where
  abbrev pub adapter_connect : L → List (ModelInstance D S) → Called D S L
  adapter_connect = call_each vtable.connect

  abbrev pub adapter_register : L → List (ModelInstance D S) → Called D S L
  adapter_register = call_each vtable.register_

  abbrev pub adapter_exit : L → List (ModelInstance D S) → Called D S L
  adapter_exit = call_each vtable.exit

  abbrev pub adapter_model_ready : L → List (ModelInstance D S) → Called D S L
  adapter_model_ready = call_first vtable.ready

  abbrev pub adapter_model_start : L → List (ModelInstance D S) → Called D S L
  adapter_model_start = call_first vtable.start

  -- The start is waited for also if the ready has failed.
  unfoldable pub adapter_ready : L → List (ModelInstance D S) → Called D S L
  adapter_ready l mis =
      let r = adapter_model_ready l mis in
      let s = adapter_model_start r.2 r.1 in (bit_or r.0 s.0, s.1, s.2)
