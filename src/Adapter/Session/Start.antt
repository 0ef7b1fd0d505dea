-- ===== src/Adapter/Session/Start.antt =====
-- A model that waits for the start of a step.
use dse_modelc.Base.{
  ◌≡◌, refl, ap, ◌∙◌, sym, Bool, true, false, some, List, [], ◌∷◌, ◌++◌, map, arith, All,
}
use mathlib.Core.List.{append-nil}
use dse_modelc.Double.{Double}
use dse_modelc.SimBus.Handler.{SignalVector}
use dse_modelc.Adapter.{Adapter, Notice}
use dse_modelc.Adapter.Notify.{handle_notify_message}
use dse_modelc.Adapter.Message.{
  Wire, Arrival, etime, process_sbno_message, wait_message, process_message_stream,
}
use dse_modelc.Adapter.Message.Frames.{
  IsWritten, Writer, frames, process_all, process_message_stream-frames,
}
use dse_modelc.Adapter.Session.{model_handler, model_start}

abbrev pub is_notify : {D : Type 0} → Notice D → Bool
is_notify (Notice.notify vs model_time schedule_time) = true
is_notify _ = false

-- A buffer of messages.
abbrev pub buffer : {D : Type 0} (wire : Wire D) → Writer D wire → List (Notice D) → Arrival
buffer wire writer ns = Arrival.stream (frames wire writer ns)

IsWritten-part :
    {D : Type 0} (wire : Wire D) (writer : Writer D wire) (ns : List (Notice D))
    → All (λ n. IsWritten wire writer n × (is_notify n ≡ false)) ns
    → All (IsWritten wire writer) ns
IsWritten-part wire writer [] h = tt
IsWritten-part wire writer (n ∷ ns) h = (h.0.0, IsWritten-part wire writer ns h.1)

module _ {D S : Type 0} (double : Double D) (wire : Wire D) (writer : Writer D wire) where
  process_skips :
      (n : Notice D) (a : Adapter D S)
      → is_notify n ≡ false
      → process_sbno_message (model_handler double) 0 a n ≡ some (false, a)
  unfolding process_sbno_message model_handler
  process_skips (Notice.model_register token uid) a h = refl
  process_skips (Notice.signal_index channel uid token indexes) a h = refl
  process_skips Notice.model_exit a h = refl
  process_skips (Notice.notify vs model_time schedule_time) a h = absurd (ground (arith, h))

  process_ignores :
      (ns : List (Notice D)) (a : Adapter D S)
      → All (λ n. IsWritten wire writer n × (is_notify n ≡ false)) ns
      → process_all (model_handler double) 0 ns false a ≡ some (false, a)
  process_ignores [] a h = refl
  process_ignores (n ∷ ns) a h = rw (process_skips n a h.0.1) (process_ignores ns a h.1)

  streamed :
      (ns : List (Notice D)) (a : Adapter D S)
      → All (IsWritten wire writer) ns
      → process_message_stream wire (model_handler double) 0 (frames wire writer ns) a
        ≡ process_all (model_handler double) 0 ns false a
  streamed ns a written =
      ap (λ b. process_message_stream wire (model_handler double) 0 b a)
        (sym (append-nil (frames wire writer ns)))
      ∙ process_message_stream-frames wire writer (model_handler double) 0 ns [] a written
          (omega arith)

  wait_skips :
      (skips : List (List (Notice D))) (es : List Arrival) (a : Adapter D S)
      → All (All (λ n. IsWritten wire writer n × (is_notify n ≡ false))) skips
      → wait_message wire (model_handler double) 0 (map (buffer wire writer) skips ++ es) a
        ≡ wait_message wire (model_handler double) 0 es a
  unfolding wait_message model_handler
  wait_skips [] es a h = refl
  wait_skips (ns ∷ skips) es a h =
      rw (wait_message, streamed ns a (IsWritten-part wire writer ns h.0), process_ignores ns a h.0)
        (wait_skips skips es a h.1)

  -- A model that waits for the start of a step ignores buffers of other messages, and goes on
  -- with code 0 when a Notify message arrives that it can handle: it has handled that message, and
  -- has consumed the arrivals up to it.
  pub model_start-notified :
      (skips : List (List (Notice D))) (vs : List (SignalVector D)) (model_time schedule_time : D)
      (es : List Arrival) (a a' : Adapter D S)
      → All (All (λ n. IsWritten wire writer n × (is_notify n ≡ false))) skips
      → IsWritten wire writer (Notice.notify vs model_time schedule_time)
      → handle_notify_message double a (Notice.notify vs model_time schedule_time) ≡ some a'
      → model_start double wire a (
          map (buffer wire writer) skips
          ++ buffer wire writer (Notice.notify vs model_time schedule_time ∷ []) ∷ es)
        ≡ some (record { rc = 0; found = true; adapter = a'; arrivals = es })
  unfolding model_start wait_message process_sbno_message model_handler
  model_start-notified skips vs model_time schedule_time es a a' h written e =
      let n = Notice.notify vs model_time schedule_time in
      let skip = wait_skips skips (buffer wire writer (n ∷ []) ∷ es) a h in
      let found : process_all (model_handler double) 0 (n ∷ []) false a ≡ some (true, a') = rw e in
      rw (model_start, skip, wait_message, streamed (n ∷ []) a (written, tt), found)

  -- A timeout is reported: when no Notify message has arrived before it, the wait ends with ETIME and
  -- the adapter is as it was.
  pub model_start-timeout :
      (skips : List (List (Notice D))) (es : List Arrival) (a : Adapter D S)
      → All (All (λ n. IsWritten wire writer n × (is_notify n ≡ false))) skips
      → model_start double wire a (map (buffer wire writer) skips ++ Arrival.timeout ∷ es)
        ≡ some (record { rc = etime; found = false; adapter = a; arrivals = es })
  unfolding model_start wait_message model_handler
  model_start-timeout skips es a h =
      rw (model_start, wait_skips skips (Arrival.timeout ∷ es) a h, wait_message)
