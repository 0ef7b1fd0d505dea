-- ===== src/SimBus/Run/Safe.antt =====
-- A run of the bus over any sequence of buffers: simbus_adapter_run() of
-- dse/modelc/adapter/simbus/adapter.c.
use dse_modelc.Base.{◌≡◌, refl, ◌∙◌, inl, inr, false, some, List, [], ◌∷◌, ◌++◌, All, Bool-cases}
use dse_modelc.Double.{Double}
use dse_modelc.SimBus.{UidSet, Channel, Bus}
use dse_modelc.SimBus.Index.Lookup.{IsSound}
use dse_modelc.SimBus.Handler.{SignalVector, Received, Sent}
use dse_modelc.SimBus.Safe.{IsAddressed, handle-IsSound}
use dse_modelc.SimBus.Safe.Channels.{HasChannel, channel_names, position-names}
use dse_modelc.Adapter.Sync.Step.{HasGivenUids}
use dse_modelc.SimBus.Run.{handle_all, run_loop, run}

module _ {D S : Type 0} where
  vectors-IsAddressed :
      (cs cs' : List (Channel D S)) (vs : List (SignalVector D))
      → channel_names cs' ≡ channel_names cs
      → All (λ v. HasChannel cs v.channel × HasGivenUids v) vs
      → All (λ v. HasChannel cs' v.channel × HasGivenUids v) vs
  vectors-IsAddressed cs cs' [] same h = tt
  vectors-IsAddressed cs cs' (v ∷ vs) same (((i, e), given), h) = (
    ((i, position-names v.channel 0 cs cs' same ∙ e), given),
    vectors-IsAddressed cs cs' vs same h,
  )

  -- A message that has its channels has them as long as the names stay.
  message-IsAddressed :
      (cs cs' : List (Channel D S)) (m : Received D)
      → channel_names cs' ≡ channel_names cs
      → IsAddressed cs m
      → IsAddressed cs' m
  message-IsAddressed cs cs' (Received.register r) same (i, e) =
      (i, position-names r.channel 0 cs cs' same ∙ e)
  message-IsAddressed cs cs' (Received.signal_index channel uid token names) same (i, e) =
      (i, position-names channel 0 cs cs' same ∙ e)
  message-IsAddressed cs cs' (Received.model_exit channel uid) same (i, e) =
      (i, position-names channel 0 cs cs' same ∙ e)
  message-IsAddressed cs cs' (Received.notify vs) same h = vectors-IsAddressed cs cs' vs same h

  buffer-IsAddressed :
      (cs cs' : List (Channel D S)) (ms : List (Received D))
      → channel_names cs' ≡ channel_names cs
      → All (IsAddressed cs) ms
      → All (IsAddressed cs') ms
  buffer-IsAddressed cs cs' [] same h = tt
  buffer-IsAddressed cs cs' (m ∷ ms) same h =
      (message-IsAddressed cs cs' m same h.0, buffer-IsAddressed cs cs' ms same h.1)

  buffers-IsAddressed :
      (cs cs' : List (Channel D S)) (buffers : List (List (Received D)))
      → channel_names cs' ≡ channel_names cs
      → All (All (IsAddressed cs)) buffers
      → All (All (IsAddressed cs')) buffers
  buffers-IsAddressed cs cs' [] same h = tt
  buffers-IsAddressed cs cs' (ms ∷ buffers) same h =
      (buffer-IsAddressed cs cs' ms same h.0, buffers-IsAddressed cs cs' buffers same h.1)

module _ {D S : Type 0} (double : Double D) (sets : UidSet S) where
  buffer-IsSound :
      (bus : Bus D S) (ms : List (Received D))
      → All IsSound bus.channels
      → All (IsAddressed bus.channels) ms
      → (r : List (Sent D) × Bus D S) × (handle_all double sets bus ms ≡ some r)
        × All IsSound r.1.channels
        × (channel_names r.1.channels ≡ channel_names bus.channels)
  unfolding handle_all
  buffer-IsSound bus [] sound h = (([], bus), refl, sound, refl)
  buffer-IsSound bus (m ∷ ms) sound h =
      let (r, e, sound1, same1) = handle-IsSound double sets bus m sound h.0 in
      let addressed = buffer-IsAddressed bus.channels r.1.channels ms same1 h.1 in
      let (s, e', sound2, same2) = buffer-IsSound r.1 ms sound1 addressed in
      ((r.0 ++ s.0, s.1), rw (handle_all, e, e'), sound2, same2 ∙ same1)

  loop-IsSound :
      (bus : Bus D S) (buffers : List (List (Received D)))
      → All IsSound bus.channels
      → All (All (IsAddressed bus.channels)) buffers
      → (r : List (Sent D) × Bus D S) × (run_loop double sets bus buffers ≡ some r)
        × All IsSound r.1.channels
        × (channel_names r.1.channels ≡ channel_names bus.channels)
  unfolding run_loop
  loop-IsSound bus [] sound h = (([], bus), refl, sound, refl)
  loop-IsSound bus (ms ∷ buffers) sound h =
      let (r, e, sound1, same1) = buffer-IsSound bus ms sound h.0 in
      elim (Bool-cases r.1.exit_run_loop) [
        | inl leaves ↦ (r, rw (run_loop, e, leaves), sound1, same1)
        | inr stays ↦
            let addressed = buffers-IsAddressed bus.channels r.1.channels buffers same1 h.1 in
            let (s, e', sound2, same2) = loop-IsSound r.1 buffers sound1 addressed in
            ((r.0 ++ s.0, s.1), rw (run_loop, e, stays, e'), sound2, same2 ∙ same1)
      ]

  -- A run over any sequence of buffers, in which each message names channels that the bus has at the
  -- start and no signal of uid 0, has no fault; the lookups of all channels, sound at the start, are
  -- sound at its end, and the channels keep their names and their order.
  pub run-IsSound :
      (bus : Bus D S) (buffers : List (List (Received D)))
      → All IsSound bus.channels
      → All (All (IsAddressed bus.channels)) buffers
      → (r : List (Sent D) × Bus D S) × (run double sets bus buffers ≡ some r)
        × All IsSound r.1.channels
        × (channel_names r.1.channels ≡ channel_names bus.channels)
  unfolding run
  run-IsSound bus buffers sound h =
      loop-IsSound (record bus { exit_run_loop = false }) buffers sound h
