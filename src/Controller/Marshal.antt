-- ===== src/Controller/Marshal.antt =====
-- The signals between the channels of the adapter and the vectors of a model:
-- __marshal__adapter2model(), __marshal__model2adapter() and marshal_model() of
-- dse/modelc/controller/controller.c. The signal maps are those that the first call has made.
use dse_modelc.Base.{
  ℕ, Bool, true, false, Option, none, some, List, [], ◌∷◌, ◌++◌, get_elem?, set, ◌>>=◌,
  if◌then◌else◌,
}
use dse_modelc.Double.{Double}
use dse_modelc.SimBus.{SignalValue, Channel}
use dse_modelc.SimBus.Handler.{channel_position}
use dse_modelc.Controller.{
  BinaryValue, ModelFunctionChannel, ModelFunction, ModelInstance, MarshalDir,
}
use dse_modelc.Controller.Transform.{
  LuaCalls, controller_transform_to_model, controller_transform_from_model,
}

module _ {D : Type 0} where
  -- The data of each signal go to the model, and are consumed.
  unfoldable pub binary_to_model :
      List (SignalValue D)
      → List ℕ
      → List BinaryValue
      → Option (List BinaryValue × List (SignalValue D))
  binary_to_model svs [] bs = some ([], svs)
  binary_to_model svs (i ∷ is) [] = none
  binary_to_model svs (i ∷ is) (b ∷ bs) = get_elem? svs i >>= (λ sv.
      binary_to_model (set svs i (record sv { bin = [] })) is bs
      >>= (λ r. some (record { bytes = b.bytes ++ sv.bin; reset_called = false } ∷ r.0, r.1)))

  -- The data of the model go to each signal, unless the model has not called reset().
  unfoldable pub binary_from_model :
      List (SignalValue D)
      → List ℕ
      → List BinaryValue
      → Option (List BinaryValue × List (SignalValue D))
  binary_from_model svs [] bs = some ([], svs)
  binary_from_model svs (i ∷ is) [] = none
  binary_from_model svs (i ∷ is) (b ∷ bs) = get_elem? svs i >>= (λ sv.
      let written = if b.reset_called then b.bytes else [] in
      binary_from_model (set svs i (record sv { bin = sv.bin ++ written })) is bs
      >>= (λ r. some (record b { bytes = [] } ∷ r.0, r.1)))

-- What a direction marshals.
unfoldable pub to_model : MarshalDir → Bool
to_model MarshalDir.adapter2model = true
to_model MarshalDir.adapter2model_scalar_only = true
to_model _ = false

unfoldable pub scalars : MarshalDir → Bool
scalars MarshalDir.model2adapter_binary_only = false
scalars _ = true

unfoldable pub binaries : MarshalDir → Bool
binaries MarshalDir.adapter2model_scalar_only = false
binaries MarshalDir.model2adapter_scalar_only = false
binaries _ = true

module _ {D S L : Type 0} (double : Double D) (lua : LuaCalls D L) where
  unfoldable pub marshal_scalars :
      MarshalDir
      → L
      → ModelFunctionChannel D
      → Channel D S
      → Option (ModelFunctionChannel D × Channel D S × L)
  marshal_scalars dir l mfc c = elim mfc.signal_value_double [
    | none ↦ some (mfc, c, l)
    | some values ↦ elim (to_model dir) [
      | true ↦
          controller_transform_to_model double lua l mfc.signal_transform c.signal_values
            mfc.signal_map
          >>= (λ r. some (record mfc { signal_value_double = some r.0 }, c, r.1))
      | false ↦
          controller_transform_from_model double lua l mfc.signal_transform c.signal_values
            mfc.signal_map values
          >>= (λ r. some (mfc, record c { signal_values = r.0 }, r.1))
    ]
  ]

  unfoldable pub marshal_binaries :
      MarshalDir
      → ModelFunctionChannel D
      → Channel D S
      → Option (ModelFunctionChannel D × Channel D S)
  marshal_binaries dir mfc c = elim mfc.signal_value_binary [
    | none ↦ some (mfc, c)
    | some bs ↦
        elim (to_model dir) [
          | true ↦ binary_to_model c.signal_values mfc.signal_map bs
          | false ↦ binary_from_model c.signal_values mfc.signal_map bs
        ]
        >>= (λ r.
            some (record mfc { signal_value_binary = some r.0 }, record c { signal_values = r.1 }))
  ]

  -- One channel of a model function, with the channel of the adapter that its signal map leads to.
  unfoldable pub marshal_channel :
      MarshalDir
      → L
      → ModelFunctionChannel D
      → Channel D S
      → Option (ModelFunctionChannel D × Channel D S × L)
  marshal_channel dir l mfc c =
      (if scalars dir then marshal_scalars dir l mfc c else some (mfc, c, l)) >>= (λ r.
        (if binaries dir then marshal_binaries dir r.0 r.1 else some (r.0, r.1))
        >>= (λ s. some (s.0, s.1, r.2)))

  unfoldable pub marshal_channels :
      MarshalDir
      → L
      → List (ModelFunctionChannel D)
      → List (Channel D S)
      → Option (List (ModelFunctionChannel D) × List (Channel D S) × L)
  marshal_channels dir l [] cs = some ([], cs, l)
  marshal_channels dir l (mfc ∷ mfcs) cs = channel_position mfc.channel_name 0 cs >>= (λ i.
      get_elem? cs i >>= (λ c. marshal_channel dir l mfc c >>= (λ r.
        marshal_channels dir r.2 mfcs (set cs i r.1) >>= (λ s. some (r.0 ∷ s.0, s.1, s.2)))))

  unfoldable pub marshal_functions :
      MarshalDir
      → L
      → List (ModelFunction D)
      → List (Channel D S)
      → Option (List (ModelFunction D) × List (Channel D S) × L)
  marshal_functions dir l [] cs = some ([], cs, l)
  marshal_functions dir l (mf ∷ mfs) cs = marshal_channels dir l mf.channels cs >>= (λ r.
      marshal_functions dir r.2 mfs r.1
      >>= (λ s. some (record mf { channels = r.0 } ∷ s.0, s.1, s.2)))

  unfoldable pub marshal_model : MarshalDir → L → ModelInstance D S → Option (ModelInstance D S × L)
  marshal_model dir l mi =
      marshal_functions dir l mi.model_functions mi.channels
      >>= (λ r. some (record mi { model_functions = r.0; channels = r.1 }, r.2))

  -- All instances of the simulation.
  unfoldable pub marshal :
      MarshalDir → L → List (ModelInstance D S) → Option (List (ModelInstance D S) × L)
  marshal dir l [] = some ([], l)
  marshal dir l (mi ∷ mis) =
      marshal_model dir l mi >>= (λ r. marshal dir r.1 mis >>= (λ s. some (r.0 ∷ s.0, s.1)))
