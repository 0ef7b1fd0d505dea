-- ===== src/Controller/Transform.antt =====
-- The scalar signals between the adapter and a model: dse/modelc/controller/transform.c. The Lua
-- functions belong to the interpreter and are given; an access outside a vector is `none`.
pub mod Idle
use dse_modelc.Base.{
  ℕ, ◌==◌, Option, none, some, List, [], ◌∷◌, get_elem?, set, ◌>>=◌, if◌then◌else◌,
}
use dse_modelc.Double.{Double}
use dse_modelc.SimBus.{SignalValue}
use dse_modelc.Controller.{SignalTransform}

-- The call of a Lua function with a value, on the interpreter's state: the value that the function
-- leaves, or `none` when it fails, returns 0 or leaves no number.
pub record LuaCalls (D L : Type 0) : Type 0 where
  pub call_value : L → ℕ → D → Option D × L

module _ {D : Type 0} (double : Double D) where
  -- Linear transform: value * factor + offset, and back; a factor of 0 disables it.
  unfoldable pub linear_to_model : SignalTransform D → D → D
  linear_to_model t val =
      if double.eq t.factor double.zero then val else double.add (double.mul val t.factor) t.offset

  unfoldable pub linear_from_model : SignalTransform D → D → D
  linear_from_model t val =
      if double.eq t.factor double.zero then val else double.div (double.sub val t.offset) t.factor

module _ {D L : Type 0} (double : Double D) (lua : LuaCalls D L) where
  unfoldable pub call_lua_transform : L → ℕ → D → D × L
  call_lua_transform l func_ref val = if func_ref == 0 then (val, l) else (
    elim (lua.call_value l func_ref val).0 [ none ↦ val | some ret_val ↦ ret_val ],
    (lua.call_value l func_ref val).1,
  )

  -- The values of the mapped signals, transformed.
  unfoldable pub transform_to_model :
      L → List (SignalValue D) → List ℕ → List (SignalTransform D) → Option (List D × L)
  transform_to_model l svs [] ts = some ([], l)
  transform_to_model l svs (i ∷ is) [] = none
  transform_to_model l svs (i ∷ is) (t ∷ ts) = get_elem? svs i >>= (λ sv.
      let r = call_lua_transform l t.model_ref (linear_to_model double t sv.val) in
      transform_to_model r.1 svs is ts >>= (λ s. some (r.0 ∷ s.0, s.1)))

  -- The final values of the mapped signals, from the values of the model.
  unfoldable pub transform_from_model :
      L
      → List (SignalValue D)
      → List ℕ
      → List D
      → List (SignalTransform D)
      → Option (List (SignalValue D) × L)
  transform_from_model l svs [] values ts = some (svs, l)
  transform_from_model l svs (i ∷ is) (value ∷ values) (t ∷ ts) = get_elem? svs i >>= (λ sv.
      let r = call_lua_transform l t.vector_ref (linear_from_model double t value) in
      transform_from_model r.1 (set svs i (record sv { final_val = r.0 })) is values ts)
  transform_from_model l svs (i ∷ is) _ _ = none

module _ {D : Type 0} where
  -- Without transforms.
  unfoldable pub direct_to_model : List (SignalValue D) → List ℕ → Option (List D)
  direct_to_model svs [] = some []
  direct_to_model svs (i ∷ is) = do
    sv ← get_elem? svs i
    values ← direct_to_model svs is
    some (sv.val ∷ values)

  unfoldable pub direct_from_model :
      List (SignalValue D) → List ℕ → List D → Option (List (SignalValue D))
  direct_from_model svs [] values = some svs
  direct_from_model svs (i ∷ is) [] = none
  direct_from_model svs (i ∷ is) (value ∷ values) =
      get_elem? svs i
      >>= (λ sv. direct_from_model (set svs i (record sv { final_val = value })) is values)

module _ {D L : Type 0} (double : Double D) (lua : LuaCalls D L) where
  unfoldable pub controller_transform_to_model :
      L → Option (List (SignalTransform D)) → List (SignalValue D) → List ℕ → Option (List D × L)
  controller_transform_to_model l none svs is =
      direct_to_model svs is >>= (λ values. some (values, l))
  controller_transform_to_model l (some ts) svs is = transform_to_model double lua l svs is ts

  unfoldable pub controller_transform_from_model :
      L
      → Option (List (SignalTransform D))
      → List (SignalValue D)
      → List ℕ
      → List D
      → Option (List (SignalValue D) × L)
  controller_transform_from_model l none svs is values =
      direct_from_model svs is values >>= (λ svs'. some (svs', l))
  controller_transform_from_model l (some ts) svs is values =
      transform_from_model double lua l svs is values ts
