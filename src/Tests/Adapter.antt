-- ===== src/Tests/Adapter.antt =====
-- A model with one channel on the bus of Tests.SimBus, and messages of a few bytes.
use dse_modelc.Base.{
  ℕ, ◌+◌, ◌*◌, ◌/◌, ◌%◌, ◌^◌, ◌<◌, ◌≡◌, refl, true, false, none, some, List, [], ◌∷◌, ◌++◌, arith,
  ◌==◌, if◌then◌else◌,
}
use dse_modelc.SimBus.{Channel}
use dse_modelc.SimBus.Handler.{SignalVector}
use dse_modelc.Adapter.{Adapter, Notice}
use dse_modelc.Adapter.Notify.{handle_notify_message, notify_models, notify_model, notify_vectors}
use dse_modelc.Adapter.Message.{Wire, Arrival, process_message_stream}
use dse_modelc.Adapter.Message.Frames.{
  Writer, IsWritten, frames, process_all, process_message_stream-frames,
}
use dse_modelc.Adapter.Session.{model_handler, model_start}
use dse_modelc.Adapter.Session.Start.{buffer, model_start-notified}
use dse_modelc.Tests.Common.{whole}
use dse_modelc.Tests.SimBus.{speed, frames as binaries, channel}

-- The bus at rest, the model's view of its two signals, and the vectors of two models.
abbrev at_rest : Channel ℕ (List ℕ)
at_rest = record channel { signal_values = record speed { final_val = 3 } ∷ binaries ∷ [] }

abbrev model : Channel ℕ (List ℕ)
model = record channel {
  signal_values = binaries ∷ record speed { final_val = 9 } ∷ [];
  uid2sv_lookup = [];
}

abbrev vectors : List (SignalVector ℕ)
vectors =
    record {
      channel = 99 ∷ [];
      model_uid = 7;
      signal = (21, 9) ∷ [];
      binary_signal = (22, 5 ∷ []) ∷ [];
    }
    ∷ record { channel = 99 ∷ []; model_uid = 8; signal = (21, 4) ∷ []; binary_signal = [] }
    ∷ []

abbrev memory : ℕ → ℕ
memory u = if u == 21 then 3 else 0

-- The size in four bytes, least significant first. A message of one byte: 1 is ModelExit, 2 a Notify
-- without signals from time 3 to time 5.
abbrev step : Notice ℕ
step = Notice.notify [] 3 5

abbrev wire : Wire ℕ
wire = record {
  read_size_prefix = λ b. elim b [
    | [] ↦ 0
    | b0 ∷ r0 ↦ elim r0 [
      | [] ↦ 0
      | b1 ∷ r1 ↦ elim r1 [
        | [] ↦ 0
        | b2 ∷ r2 ↦ elim r2 [ [] ↦ 0 | b3 ∷ r3 ↦ b0 + 256 * b1 + 65536 * b2 + 16777216 * b3 ]
      ]
    ]
  ];
  as_root = λ b. elim b [
    | [] ↦ none
    | b0 ∷ r0 ↦ if b0 == 1 then some Notice.model_exit else if b0 == 2 then some step else none
  ];
}

abbrev body : Notice ℕ → List ℕ
body (Notice.notify vs model_time schedule_time) = 2 ∷ []
body _ = 1 ∷ []

little_endian :
    (k : ℕ)
    → k < 2 ^ 32
    → k % 256 + 256 * (k / 256 % 256) + 65536 * (k / 65536 % 256) + 16777216 * (k / 16777216) ≡ k
little_endian k h = omega arith

abbrev writer : Writer ℕ wire
writer = record {
  size_prefix = λ k. k % 256 ∷ k / 256 % 256 ∷ k / 65536 % 256 ∷ k / 16777216 ∷ [];
  body = body;
  length-size_prefix = λ k. refl;
  read_back = λ k rest h. little_endian k h;
}

abbrev adapter : Adapter ℕ (List ℕ)
adapter = record {
  models = record { model_uid = 7; model_time = 0; stop_time = 3; channels = model ∷ [] } ∷ [];
  stop_request = false;
  token = 4;
}

abbrev started : Adapter ℕ (List ℕ)
started = record adapter {
  models = record { model_uid = 7; model_time = 3; stop_time = 5; channels = model ∷ [] } ∷ [];
}

exit-IsWritten : IsWritten wire writer Notice.model_exit
exit-IsWritten = (refl, omega arith, omega arith)

step-IsWritten : IsWritten wire writer step
step-IsWritten = (refl, omega arith, omega arith)

stream_example :
    process_message_stream wire
      (model_handler whole)
      0
      (frames wire writer (Notice.model_exit ∷ step ∷ []) ++ 1 ∷ 0 ∷ [])
      adapter
    ≡ process_all (model_handler whole) 0 (Notice.model_exit ∷ step ∷ []) false adapter
stream_example =
    process_message_stream-frames wire writer (model_handler whole) 0
      (Notice.model_exit ∷ step ∷ []) (1 ∷ 0 ∷ []) adapter (exit-IsWritten, (step-IsWritten, tt))
      (omega arith)

notified_example :
    model_start whole wire adapter (
      buffer wire writer (Notice.model_exit ∷ [])
      ∷ buffer wire writer (step ∷ [])
      ∷ Arrival.timeout
      ∷ [])
    ≡ some (record { rc = 0; found = true; adapter = started; arrivals = Arrival.timeout ∷ [] })
unfolding handle_notify_message notify_models notify_model notify_vectors
notified_example =
    model_start-notified whole wire writer ((Notice.model_exit ∷ []) ∷ []) [] 3 5
      (Arrival.timeout ∷ []) adapter started (((exit-IsWritten, refl), tt), tt) step-IsWritten refl
