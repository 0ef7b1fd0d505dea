-- ===== src/Adapter/Session.antt =====
-- What a model sends and waits for while it joins and leaves a simulation: adapter_msg_connect(),
-- adapter_msg_register(), adapter_msg_model_start() and adapter_msg_exit() of
-- dse/modelc/adapter/adapter_msg.c, and adapter_ready() of adapter.c. What the endpoint receives
-- is an explicit list of arrivals; `none` is a fault, log_fatal(), or a wait that has not ended.
pub mod Start
use dse_modelc.Base.{
  ℕ, zero, suc, ◌+◌, ◌%◌, ◌^◌, ◌||◌, Bool, true, false, Option, none, some, List, [], ◌∷◌, ◌++◌,
  map, length, get_elem?, set, take, ◌==◌, ◌>>=◌, if◌then◌else◌,
}
use dse_modelc.Double.{Double}
use dse_modelc.SimBus.{Channel}
use dse_modelc.SimBus.Index.{refresh_index}
use dse_modelc.SimBus.Handler.{ModelRegister, Received}
use dse_modelc.Adapter.{AdapterModel, Adapter, Notice, model_position}
use dse_modelc.Adapter.Notify.{model_ready, handle_notify_message}
use dse_modelc.Adapter.Message.{Wire, Handler, Arrival, Waited, wait_message, wait_ack, etime}

-- What was sent, and the adapter and the arrivals after it.
pub record Sending (D S : Type 0) : Type 0 where
  pub sent : List (Received D)
  pub adapter : Adapter D S
  pub arrivals : List Arrival

-- get_token(): the counter as its bit pattern.
unfoldable pub next_token : {D S : Type 0} → Adapter D S → Adapter D S
next_token a = record a { token = (a.token + 1) % 2 ^ 32 }

unfoldable pub model_handler : {D S : Type 0} → Double D → Handler D (Adapter D S)
model_handler double = record {
  bus_mode = false;
  has_model = λ a uid. elim (model_position uid 0 a.models) [ none ↦ false | some m ↦ true ];
  handle = handle_notify_message double;
}

module _ {D S : Type 0} (double : Double D) (wire : Wire D) where
  -- The register messages for one channel. The loop ends with the first one that is acknowledged,
  -- when the adapter is to stop, or after retry_count tries.
  unfoldable pub connect_channel :
      ℕ → ModelRegister D → Adapter D S → List Arrival → Option (Sending D S)
  connect_channel zero r a es = some (record { sent = []; adapter = a; arrivals = es })
  connect_channel (suc retries) r a es =
      let a' = next_token a in
      let r' = record r { token = a'.token } in
      wait_ack wire (model_handler double) a'.token es a' >>= (λ w.
        elim (w.rc == 0 || w.adapter.stop_request) [
          | true ↦ some (record {
            sent = Received.register r' ∷ [];
            adapter = w.adapter;
            arrivals = w.arrivals;
          })
          | false ↦
              connect_channel retries r w.adapter w.arrivals
              >>= (λ s. some (record s { sent = Received.register r' ∷ s.sent }))
        ])

  -- The model's channels, one after the other. The result is 0 even if a channel is not
  -- acknowledged.
  unfoldable pub connect :
      ℕ → D → ℕ → ℕ → List (List ℕ) → Adapter D S → List Arrival → Option (Sending D S)
  connect retry_count step_size model_uid notify_uid [] a es =
      some (record { sent = []; adapter = a; arrivals = es })
  connect retry_count step_size model_uid notify_uid (name ∷ names) a es = do
    s ←
        connect_channel retry_count
          (record {
            channel = name;
            model_uid = model_uid;
            notify_uid = notify_uid;
            token = 0;
            step_size = step_size;
          })
          a es
    t ← connect retry_count step_size model_uid notify_uid names s.adapter s.arrivals
    some (record t { sent = s.sent ++ t.sent })

  -- The lookup of the signals of the model's channel at position i, and the wait for the answer.
  unfoldable pub register_channel : ℕ → ℕ → Adapter D S → List Arrival → Option (Sending D S)
  register_channel m i a es = get_elem? a.models m >>= (λ am. get_elem? am.channels i >>= (λ c.
      let c' = refresh_index c in
      let a' =
        next_token
          (record a { models = set a.models m (record am { channels = set am.channels i c' }) }) in
      wait_message wire (model_handler double) a'.token es a' >>= (λ w.
        if w.found
        then some (record {
          sent =
              Received.signal_index c.name am.model_uid a'.token
                (map (λ sv. sv.name) (take c'.count c'.signal_values))
              ∷ [];
          adapter = w.adapter;
          arrivals = w.arrivals;
        })
        else none)))

  -- The channels from position i on, of which there are `count`.
  unfoldable pub register : ℕ → ℕ → ℕ → Adapter D S → List Arrival → Option (Sending D S)
  register m i zero a es = some (record { sent = []; adapter = a; arrivals = es })
  register m i (suc count) a es = do
    s ← register_channel m i a es
    t ← register m (i + 1) count s.adapter s.arrivals
    some (record t { sent = s.sent ++ t.sent })

  -- The wait for Notify/ModelStart. The code is ETIME after a timeout, and otherwise 0.
  unfoldable pub model_start : Adapter D S → List Arrival → Option (Waited (Adapter D S))
  model_start a es =
      wait_message wire (model_handler double) 0 es a
      >>= (λ w. some (record w { rc = if w.rc == etime then w.rc else 0 }))

-- One message for each channel of the model.
unfoldable pub exit : {D S : Type 0} → AdapterModel D S → List (Received D)
exit am = map (λ c. Received.model_exit c.name am.model_uid) am.channels
