-- ===== src/Controller.antt =====
-- The controller of a simulation's models: dse/modelc/controller/transform.c, controller.c and
-- step.c. Its data: the instances of the models with the channels of their adapters, and the model
-- functions, whose channels hold the vectors that a model reads and writes. A pointer of a signal
-- map is the signal's position in the channel of the adapter.
pub mod Transform
pub mod Marshal
pub mod Merge
pub mod Step
pub mod Calls
pub mod Run
use dse_modelc.Base.{ℕ, Bool, List, Option, ◌∷◌, []}
use dse_modelc.SimBus.{Channel}

-- A script reference of 0 is none.
pub record SignalTransform (D : Type 0) : Type 0 where
  pub factor : D
  pub offset : D
  pub model_ref : ℕ
  pub vector_ref : ℕ

pub record BinaryValue : Type 0 where
  pub bytes : List ℕ
  pub reset_called : Bool

-- Scalar and binary vectors are `none` where the pointer is NULL.
pub record ModelFunctionChannel (D : Type 0) : Type 0 where
  pub channel_name : List ℕ
  pub signal_map : List ℕ
  pub signal_value_double : Option (List D)
  pub signal_value_binary : Option (List BinaryValue)
  pub signal_transform : Option (List (SignalTransform D))

pub record ModelFunction (D : Type 0) : Type 0 where
  pub channels : List (ModelFunctionChannel D)

pub record ModelInstance (D S : Type 0) : Type 0 where
  pub channels : List (Channel D S)
  pub model_functions : List (ModelFunction D)
  pub model_time : D
  pub stop_time : D

pub record Simulation (D S : Type 0) : Type 0 where
  pub instances : List (ModelInstance D S)
  pub sequential_cosim : Bool
  pub end_time : D

pub data MarshalDir : Type 0 where
  adapter2model : MarshalDir
  adapter2model_scalar_only : MarshalDir
  model2adapter : MarshalDir
  model2adapter_scalar_only : MarshalDir
  model2adapter_binary_only : MarshalDir
