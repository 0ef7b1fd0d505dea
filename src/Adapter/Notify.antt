-- ===== src/Adapter/Notify.antt =====
-- What a model sends when it is ready, and what it does with a message of the bus:
-- notify_encode_sv(), adapter_msg_model_ready(), notify_model() and handle_notify_message() of
-- dse/modelc/adapter/adapter_msg.c. A fault of the C code, or log_fatal(), is `none`.
use dse_modelc.Base.{
  ℕ, Option, none, some, List, [], ◌∷◌, ◌++◌, map, length, get_elem?, set, take, drop, ◌==◌, ◌>>=◌,
  if◌then◌else◌,
}
use dse_modelc.Double.{Double}
use dse_modelc.SimBus.{SignalValue, Channel}
use dse_modelc.SimBus.Index.{position_by_name, refresh_index}
use dse_modelc.SimBus.Handler.{
  SignalVector, Received, channel_position, receive_binary, receive_with, receive_all,
  changed_signals, binary_signals,
}
use dse_modelc.Adapter.{AdapterModel, Adapter, Notice, model_position}

-- The binary object was consumed.
unfoldable pub consume : {D : Type 0} → SignalValue D → SignalValue D
consume sv = if sv.uid == 0 then sv else record sv { bin = [] }

module _ {D S : Type 0} (double : Double D) where
  -- One channel: its vector, and the channel after it. The index holds the first signals.
  unfoldable pub encode_channel : ℕ → Channel D S → SignalVector D × Channel D S
  encode_channel model_uid c =
      let c' = refresh_index c in
      let indexed = take c'.count c'.signal_values in
      (
        record {
          channel = c.name;
          model_uid = model_uid;
          signal = changed_signals double indexed;
          binary_signal = binary_signals indexed;
        },
        record c' { signal_values = map consume indexed ++ drop c'.count c'.signal_values },
      )

  unfoldable pub encode_channels :
      ℕ → List (Channel D S) → List (SignalVector D) × List (Channel D S)
  encode_channels model_uid [] = ([], [])
  encode_channels model_uid (c ∷ cs) =
      let (v, c') = encode_channel model_uid c in
      let (vs, cs') = encode_channels model_uid cs in (v ∷ vs, c' ∷ cs')

  -- notify_encode_sv() for every model.
  unfoldable pub encode_models :
      List (AdapterModel D S) → List (SignalVector D) × List (AdapterModel D S)
  encode_models [] = ([], [])
  encode_models (am ∷ ams) =
      let (vs, cs) = encode_channels am.model_uid am.channels in
      let (ws, ams') = encode_models ams in (vs ++ ws, record am { channels = cs } ∷ ams')

  -- Notify/ModelReady: what is sent, and the adapter after it. Without a model nothing is sent.
  unfoldable pub model_ready : Adapter D S → List (Received D) × Adapter D S
  model_ready a =
      let (vs, ams) = encode_models a.models in
      (if length ams == 0 then [] else Received.notify vs ∷ [], record a { models = ams })

module _ {D S : Type 0} where
  -- One signal of a vector: the value and the final value.
  unfoldable pub receive_value : Channel D S → ℕ × D → Option (Channel D S)
  receive_value = receive_with (λ value sv. record sv { val = value; final_val = value })

  unfoldable pub notify_channel_values : Channel D S → SignalVector D → Option (Channel D S)
  notify_channel_values c v = do
    c' ← receive_all receive_binary c v.binary_signal
    receive_all receive_value c' v.signal

  -- A vector for a channel that the model does not have is skipped.
  unfoldable pub notify_vectors :
      List (Channel D S) → List (SignalVector D) → Option (List (Channel D S))
  notify_vectors cs [] = some cs
  notify_vectors cs (v ∷ vs) = elim (channel_position v.channel 0 cs) [
    | none ↦ notify_vectors cs vs
    | some i ↦
        get_elem? cs i
        >>= (λ c. notify_channel_values c v >>= (λ c'. notify_vectors (set cs i c') vs))
  ]

module _ {D S : Type 0} (double : Double D) where
  -- One model: the times, which must progress, and the vectors.
  unfoldable pub notify_model :
      List (SignalVector D) → D → D → AdapterModel D S → Option (AdapterModel D S)
  notify_model vs model_time schedule_time am =
      if double.le schedule_time model_time
      then none
      else (notify_vectors am.channels vs >>= (λ cs.
          some (record am { model_time = model_time; stop_time = schedule_time; channels = cs })))

  unfoldable pub notify_models :
      List (SignalVector D) → D → D → List (AdapterModel D S) → Option (List (AdapterModel D S))
  notify_models vs model_time schedule_time [] = some []
  notify_models vs model_time schedule_time (am ∷ ams) = do
    am' ← notify_model vs model_time schedule_time am
    ams' ← notify_models vs model_time schedule_time ams
    some (am' ∷ ams')

-- The uids of the signals that the channel has.
unfoldable pub index_signals : {D S : Type 0} → Channel D S → List (List ℕ × ℕ) → Channel D S
index_signals c [] = c
index_signals c (x ∷ xs) =
    index_signals
      (if x.1 == 0 then c else elim (position_by_name x.0 0 c.signal_values) [
        | none ↦ c
        | some i ↦ elim (get_elem? c.signal_values i) [
          | none ↦ c
          | some sv ↦ record c {
            signal_values = set c.signal_values i (record sv { uid = x.1 });
            uid2sv_lookup = (x.1, i) ∷ c.uid2sv_lookup;
          }
        ]
      ])
      xs

module _ {D S : Type 0} (double : Double D) where
  -- A model that is not one of the adapter's is skipped; its channel must be there.
  unfoldable pub handle_index : Adapter D S → List ℕ → ℕ → List (List ℕ × ℕ) → Option (Adapter D S)
  handle_index a channel uid indexes = elim (model_position uid 0 a.models) [
    | none ↦ some a
    | some m ↦ get_elem? a.models m >>= (λ am. channel_position channel 0 am.channels >>= (λ i.
        get_elem? am.channels i >>= (λ c. some (record a {
          models =
              set a.models m (record am { channels = set am.channels i (index_signals c indexes) });
        }))))
  ]

  unfoldable pub handle_notify_message : Adapter D S → Notice D → Option (Adapter D S)
  handle_notify_message a (Notice.signal_index channel uid token indexes) =
      handle_index a channel uid indexes
  handle_notify_message a (Notice.model_register token uid) = some a
  handle_notify_message a Notice.model_exit = some a
  handle_notify_message a (Notice.notify vs model_time schedule_time) =
      notify_models double vs model_time schedule_time a.models
      >>= (λ ams. some (record a { models = ams }))
