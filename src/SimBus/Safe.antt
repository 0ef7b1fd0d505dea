-- ===== src/SimBus/Safe.antt =====
-- Every message of the models is handled without a fault, and keeps the lookups of the channels.
pub mod Channels
use dse_modelc.Base.{
  ℕ, zero, suc, ◌+◌, ◌-◌, ◌≤◌, ◌≡◌, ◌≢◌, refl, sym, ap, subst, ◌∙◌, inl, inr, true, some, List, [],
  ◌∷◌, map, arith, All, Bool-cases, Option-cases, some_cancel, none≢some, get_elem?, set, ◌==◌,
  ◌&&◌, if◌then◌else◌,
}
use dse_modelc.Double.{Double}
use dse_modelc.SimBus.{UidSet, SignalValue, Channel, Bus}
use dse_modelc.SimBus.Index.{
  position_by_name, get_signal_value, same_name, refresh_index, generate_index,
}
use dse_modelc.SimBus.Index.Lookup.{IsSound, generate_index-IsSound}
use dse_modelc.SimBus.States.{
  network_ready, models_ready, models_to_start, model_at_register, model_at_ready, model_at_exit,
  leave, nobody_registered,
}
use dse_modelc.SimBus.Handler.{
  SignalVector, Received, Sent, channel_position, receive_with, receive_signal, receive_all,
  process_notify_signalvector, process_signal_lookup, lookup_all, resolve_signal, resolve_channel,
  resolve_bus, progress_time, after_notify, receive_vectors, handle_register, handle_signal_index,
  handle,
}
use dse_modelc.SimBus.Handler.Receive.{receive_with-IsSound, map-entries}
use dse_modelc.SimBus.Live.{receive_all-SameModels}
use dse_modelc.Adapter.Sync.Step.{HasGivenUids, append_bin, receive_all-binary}
use dse_modelc.Controller.Merge.Signals.{get_signal_value-final}
use dse_modelc.SimBus.Safe.Channels.{
  HasChannel, channel_at, channels-at, channels-set, position-set, process-IsSound,
  resolve_channel-IsSound, channel_names, names-set, position-names,
}

module _ {D S : Type 0} where
  -- The channel that the message names is on the bus, and no signal of it has the uid 0.
  abbrev pub IsAddressed : List (Channel D S) → Received D → Type 0
  IsAddressed cs (Received.register r) = HasChannel cs r.channel
  IsAddressed cs (Received.signal_index channel uid token names) = HasChannel cs channel
  IsAddressed cs (Received.model_exit channel uid) = HasChannel cs channel
  IsAddressed cs (Received.notify vs) = All (λ v. HasChannel cs v.channel × HasGivenUids v) vs

module _ {D S : Type 0} (double : Double D) (sets : UidSet S) where
  started-IsSound :
      (cs : List (Channel D S))
      → All IsSound cs
      → All IsSound (models_to_start sets (map resolve_channel cs))
  unfolding models_to_start
  started-IsSound [] h = tt
  started-IsSound (c ∷ cs) h = (resolve_channel-IsSound c h.0, started-IsSound cs h.1)

  started-names :
      (cs : List (Channel D S))
      → channel_names (models_to_start sets (map resolve_channel cs)) ≡ channel_names cs
  unfolding models_to_start resolve_channel
  started-names [] = refl
  started-names (c ∷ cs) =
      let same : (refresh_index c).name ≡ c.name = elim (Bool-cases c.names) [
        | inl e ↦ rw e
        | inr e ↦ rw e
      ] in
      cc (same, started-names cs)

  after_notify-IsSound :
      (bus : Bus D S)
      → All IsSound bus.channels
      → let r = after_notify double sets bus in
        All IsSound r.1.channels × (channel_names r.1.channels ≡ channel_names bus.channels)
  unfolding after_notify resolve_bus progress_time
  after_notify-IsSound bus h =
      elim (Bool-cases (network_ready sets bus.channels && models_ready sets bus.channels)) [
        | inl ready ↦
            rw (after_notify, ready) (started-IsSound bus.channels h, started-names bus.channels)
        | inr wait ↦ rw (after_notify, wait) (h, refl)
      ]

  still_addressed :
      (vs : List (SignalVector D)) (cs : List (Channel D S)) (i : ℕ) (c c' : Channel D S)
      → get_elem? cs i ≡ some c
      → c'.name ≡ c.name
      → All (λ v. HasChannel cs v.channel × HasGivenUids v) vs
      → All (λ v. HasChannel (set cs i c') v.channel × HasGivenUids v) vs
  still_addressed [] cs i c c' at same h = tt
  still_addressed (v ∷ vs) cs i c c' at same (((j, e), given), h) = (
    ((j, position-set v.channel 0 i cs c c' at same ∙ e), given),
    still_addressed vs cs i c c' at same h,
  )

  vectors-IsSound :
      (cs : List (Channel D S)) (vs : List (SignalVector D))
      → All IsSound cs
      → All (λ v. HasChannel cs v.channel × HasGivenUids v) vs
      → (cs' : List (Channel D S)) × (receive_vectors double sets cs vs ≡ some cs')
        × All IsSound cs'
        × (channel_names cs' ≡ channel_names cs)
  unfolding receive_vectors
  vectors-IsSound cs [] sound h = (cs, refl, sound, refl)
  vectors-IsSound cs (v ∷ vs) sound (((i, found), given), h) =
      let (c, at) = channel_at v.channel i cs found in
      let (c', e, sound', same) = process-IsSound c v (channels-at cs i c sound at) given in
      let ready = model_at_ready sets c' v.model_uid in
      let (cs', e', all, names) =
        vectors-IsSound (set cs i ready) vs (channels-set cs i ready sound sound')
          (still_addressed vs cs i c ready at same h) in
      (cs', rw (receive_vectors, found, at, e) e', all, names ∙ names-set cs i c ready at same)

  get_signal_value-name :
      (c : Channel D S) (name : List ℕ) → (get_signal_value double.zero c name).1.name ≡ c.name
  unfolding get_signal_value
  get_signal_value-name c name = elim (Option-cases (position_by_name name 0 c.signal_values)) [
    | inr (i, found) ↦ rw (get_signal_value, found)
    | inl absent ↦ elim (Bool-cases c.names) [
      | inl e ↦ rw (get_signal_value, absent, e)
      | inr e ↦ rw (get_signal_value, absent, e)
    ]
  ]

  lookup-name :
      (c : Channel D S) (name : List ℕ) (r : ℕ × Channel D S)
      → process_signal_lookup double c name ≡ some r
      → r.1.name ≡ c.name
  unfolding process_signal_lookup
  lookup-name c name r e =
      elim (Option-cases (
        get_elem? (get_signal_value double.zero c name).1.signal_values
          (get_signal_value double.zero c name).0)) [
            | inl absent ↦ absurd (none≢some (rw (process_signal_lookup, absent) at e))
            | inr (sv, at) ↦
                let found = rw (process_signal_lookup, at) at e in
                ap (λ x. x.1.name) (sym (some_cancel found)) ∙ get_signal_value-name c name
          ]

  lookups :
      (c : Channel D S) (names : List (List ℕ))
      → (r : List (List ℕ × ℕ) × Channel D S) × (lookup_all double c names ≡ some r)
        × (r.1.name ≡ c.name)
  unfolding lookup_all process_signal_lookup
  lookups c [] = (([], c), refl, refl)
  lookups c (name ∷ names) =
      let ((sv, at, value), kept) = get_signal_value-final double.zero c name in
      elim (Option-cases (process_signal_lookup double c name)) [
        | inl absent ↦ absurd (none≢some (sym (rw (process_signal_lookup, at) at absent)))
        | inr (one, e) ↦
            let (rest, e', same) = lookups one.1 names in
            let same' : one.1.name ≡ c.name = lookup-name c name one e in
            (((name, one.0) ∷ rest.0, rest.1), rw (lookup_all, e, e'), same ∙ same')
      ]

  -- Every message whose channels are on the bus, and whose signals do not have the uid 0, is handled
  -- without a fault when the lookups of all channels are sound, and they stay sound. The channels
  -- keep their names and their order.
  pub handle-IsSound :
      (bus : Bus D S) (message : Received D)
      → All IsSound bus.channels
      → IsAddressed bus.channels message
      → (r : List (Sent D) × Bus D S) × (handle double sets bus message ≡ some r)
        × All IsSound r.1.channels
        × (channel_names r.1.channels ≡ channel_names bus.channels)
  unfolding handle handle_register handle_signal_index model_at_exit
  handle-IsSound bus (Received.register r) sound (i, found) =
      let (c, at) = channel_at r.channel i bus.channels found in
      let new = model_at_register sets c r.model_uid in
      (
        (
          if r.token == 0 then [] else Sent.registered bus.model_uid r ∷ [],
          record bus { channels = set bus.channels i new },
        ),
        rw (handle, handle_register, found, at),
        channels-set bus.channels i new sound (channels-at bus.channels i c sound at),
        names-set bus.channels i c new at refl,
      )
  handle-IsSound bus (Received.signal_index channel uid token names) sound (i, found) =
      let (c, at) = channel_at channel i bus.channels found in
      let (r, e, same) = lookups c names in
      (
        (
          Sent.indexed channel uid token r.0 ∷ [],
          record bus { channels = set bus.channels i (generate_index r.1) },
        ),
        rw (handle, handle_signal_index, found, at, e),
        channels-set bus.channels i (generate_index r.1) sound (generate_index-IsSound r.1),
        names-set bus.channels i c (generate_index r.1) at same,
      )
  handle-IsSound bus (Received.model_exit channel uid) sound (i, found) =
      let (c, at) = channel_at channel i bus.channels found in
      let left = leave sets c uid in
      (
        (
          [],
          record bus {
            channels = set bus.channels i left;
            exit_run_loop =
                if nobody_registered sets (set bus.channels i left)
                then true
                else bus.exit_run_loop;
          },
        ),
        rw (handle, found, model_at_exit, at),
        channels-set bus.channels i left sound (channels-at bus.channels i c sound at),
        names-set bus.channels i c left at refl,
      )
  handle-IsSound bus (Received.notify vs) sound h =
      let (cs, e, sound', names) = vectors-IsSound bus.channels vs sound h in
      let bus' = record bus { channels = cs } in
      let (sound2, names2) = after_notify-IsSound bus' sound' in
      (after_notify double sets bus', rw (handle, e), sound2, names2 ∙ names)
