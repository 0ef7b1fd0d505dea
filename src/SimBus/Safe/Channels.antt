-- ===== src/SimBus/Safe/Channels.antt =====
-- The channels of the bus by their names, and what a signal vector and a step do to the lookup of
-- one.
use dse_modelc.Base.{
  ℕ, zero, suc, ◌+◌, ◌-◌, ◌≤◌, ◌≡◌, ◌≢◌, refl, sym, ap, subst, ◌∙◌, inl, inr, some, List, [], ◌∷◌,
  map, arith, All, Bool-cases, some_cancel, none≢some, get_elem?, set, if◌then◌else◌,
}
use dse_modelc.SimBus.{SignalValue, Channel}
use dse_modelc.SimBus.Index.{same_name, refresh_index}
use dse_modelc.SimBus.Index.Lookup.{HasUid, IsSound, generate_index-IsSound}
use dse_modelc.SimBus.Handler.{
  SignalVector, channel_position, receive_with, receive_signal, receive_all,
  process_notify_signalvector, resolve_signal, resolve_first, resolve_channel,
}
use dse_modelc.SimBus.Handler.Receive.{receive_with-IsSound}
use dse_modelc.SimBus.Live.{receive_all-SameModels}
use dse_modelc.Adapter.Sync.Step.{HasGivenUids, append_bin, receive_all-binary}

module _ {D : Type 0} where
  resolve_first-HasUid :
      (count : ℕ) (svs : List (SignalValue D)) (u i : ℕ)
      → HasUid svs u i
      → HasUid (resolve_first count svs) u i
  unfolding resolve_first resolve_signal
  resolve_first-HasUid zero svs u i h = h
  resolve_first-HasUid (suc count) [] u i h = h
  resolve_first-HasUid (suc count) (sv ∷ svs) u zero (s, at, has) =
      (resolve_signal sv, refl, ap (λ x. x.uid) (some_cancel at) ∙ has)
  resolve_first-HasUid (suc count) (sv ∷ svs) u (suc i) h = resolve_first-HasUid count svs u i h

  resolve_first-entries :
      (count : ℕ) (svs : List (SignalValue D)) (es : List (ℕ × ℕ))
      → All (λ e. HasUid svs e.0 e.1) es
      → All (λ e. HasUid (resolve_first count svs) e.0 e.1) es
  resolve_first-entries count svs [] h = tt
  resolve_first-entries count svs (e ∷ es) h =
      (resolve_first-HasUid count svs e.0 e.1 h.0, resolve_first-entries count svs es h.1)

module _ {D S : Type 0} where
  -- A channel of the name is in the list.
  abbrev pub HasChannel : List (Channel D S) → List ℕ → Type 0
  HasChannel cs name = (i : ℕ) × (channel_position name 0 cs ≡ some i)

  position-at :
      (name : List ℕ) (k i : ℕ) (cs : List (Channel D S))
      → channel_position name k cs ≡ some i
      → (k ≤ i) × ((c : Channel D S) × (get_elem? cs (i - k) ≡ some c))
  unfolding channel_position
  position-at name k i [] e = absurd (none≢some e)
  position-at name k i (c ∷ cs) e = elim (Bool-cases (same_name c.name name)) [
    | inl hit ↦
        let here : k ≡ i = some_cancel (rw (channel_position, hit) at e) in
        let first : 0 ≡ i - k = omega arith in
        (omega arith, (c, subst (λ j. get_elem? (c ∷ cs) j ≡ some c) first refl))
    | inr miss ↦
        let (le, (c', at)) = position-at name (k + 1) i cs (rw (channel_position, miss) at e) in
        let next : suc (i - (k + 1)) ≡ i - k = omega arith in
        (omega arith, (c', subst (λ j. get_elem? (c ∷ cs) j ≡ some c') next at))
  ]

  pub channel_at :
      (name : List ℕ) (i : ℕ) (cs : List (Channel D S))
      → channel_position name 0 cs ≡ some i
      → (c : Channel D S) × (get_elem? cs i ≡ some c)
  channel_at name i cs e =
      let (le, (c, at)) = position-at name 0 i cs e in
      let from_first : i - 0 ≡ i = omega arith in
      (c, subst (λ j. get_elem? cs j ≡ some c) from_first at)

  pub channels-at :
      (cs : List (Channel D S)) (i : ℕ) (c : Channel D S)
      → All IsSound cs
      → get_elem? cs i ≡ some c
      → IsSound c
  channels-at [] i c h e = absurd (none≢some e)
  channels-at (x ∷ cs) zero c h e = subst IsSound (some_cancel e) h.0
  channels-at (x ∷ cs) (suc i) c h e = channels-at cs i c h.1 e

  pub channels-set :
      (cs : List (Channel D S)) (i : ℕ) (c : Channel D S)
      → All IsSound cs
      → IsSound c
      → All IsSound (set cs i c)
  channels-set [] i c h k = tt
  channels-set (x ∷ cs) zero c h k = (k, h.1)
  channels-set (x ∷ cs) (suc i) c h k = (h.0, channels-set cs i c h.1 k)

  -- A channel that is replaced by one of its name leaves the positions.
  pub position-set :
      (name : List ℕ) (k i : ℕ) (cs : List (Channel D S)) (c c' : Channel D S)
      → get_elem? cs i ≡ some c
      → c'.name ≡ c.name
      → channel_position name k (set cs i c') ≡ channel_position name k cs
  unfolding channel_position
  position-set name k i [] c c' e same = refl
  position-set name k zero (x ∷ cs) c c' e same =
      let at : c'.name ≡ x.name = same ∙ ap (λ z. z.name) (sym (some_cancel e)) in
      ap (λ n. if same_name n name then some k else channel_position name (k + 1) cs) at
  position-set name k (suc i) (x ∷ cs) c c' e same = elim (Bool-cases (same_name x.name name)) [
    | inl hit ↦ rw (channel_position, hit)
    | inr miss ↦ rw (channel_position, miss) (position-set name (k + 1) i cs c c' e same)
  ]

  receive_all-IsSound :
      {V : Type 0} (assign : V → SignalValue D → SignalValue D)
      → ((v : V) (sv : SignalValue D) → (assign v sv).uid ≡ sv.uid)
      → (c : Channel D S) (xs : List (ℕ × V)) → IsSound c
      → All (λ x. x.0 ≢ 0) xs
      → (c' : Channel D S) × (receive_all (receive_with assign) c xs ≡ some c') × IsSound c'
  unfolding receive_all
  receive_all-IsSound assign keeps c [] sound given = (c, refl, sound)
  receive_all-IsSound assign keeps c (x ∷ xs) sound given =
      let (c1, e1, sound1, count, how) =
        receive_with-IsSound assign keeps c x.0 x.1 sound given.0 in
      let (c2, e2, sound2) = receive_all-IsSound assign keeps c1 xs sound1 given.1 in
      (c2, rw (receive_all, e1) e2, sound2)

  pub process-IsSound :
      (c : Channel D S) (v : SignalVector D)
      → IsSound c
      → HasGivenUids v
      → (c' : Channel D S) × (process_notify_signalvector c v ≡ some c')
        × IsSound c'
        × (c'.name ≡ c.name)
  unfolding process_notify_signalvector receive_signal
  process-IsSound c v sound given =
      let assign : D → SignalValue D → SignalValue D = λ x sv. record sv { final_val = x } in
      let (b, e1, sound1) =
        receive_all-IsSound append_bin (λ d sv. refl) c v.binary_signal sound given.1 in
      let (c', e2, sound2) = receive_all-IsSound assign (λ x sv. refl) b v.signal sound1 given.0 in
      (
        c',
        rw (receive_all-binary c v.binary_signal given.1, e1) e2,
        sound2,
        (receive_all-SameModels assign b c' v.signal e2).0
            ∙ (receive_all-SameModels append_bin c b v.binary_signal e1).0,
      )

  pub resolve_channel-IsSound : (c : Channel D S) → IsSound c → IsSound (resolve_channel c)
  unfolding resolve_channel resolve_signal
  resolve_channel-IsSound c sound =
      let refreshed : IsSound (refresh_index c) = elim (Bool-cases c.names) [
        | inl e ↦ rw e sound
        | inr e ↦ rw e (generate_index-IsSound c)
      ] in
      resolve_first-entries (refresh_index c).count (refresh_index c).signal_values
        (refresh_index c).uid2sv_lookup refreshed

  -- The names of the channels, in their order.
  abbrev pub channel_names : List (Channel D S) → List (List ℕ)
  channel_names cs = map (λ c. c.name) cs

  pub names-set :
      (cs : List (Channel D S)) (i : ℕ) (c c' : Channel D S)
      → get_elem? cs i ≡ some c
      → c'.name ≡ c.name
      → channel_names (set cs i c') ≡ channel_names cs
  names-set [] i c c' at same = refl
  names-set (x ∷ cs) zero c c' at same =
      let first : c'.name ≡ x.name = same ∙ ap (λ z. z.name) (sym (some_cancel at)) in
      ap (λ n. n ∷ channel_names cs) first
  names-set (x ∷ cs) (suc i) c c' at same = ap (λ ns. x.name ∷ ns) (names-set cs i c c' at same)

  -- The positions of the channels follow from their names.
  pub position-names :
      (name : List ℕ) (k : ℕ) (cs cs' : List (Channel D S))
      → channel_names cs' ≡ channel_names cs
      → channel_position name k cs' ≡ channel_position name k cs
  unfolding channel_position
  position-names name k [] [] e = refl
  position-names name k [] (y ∷ ys) e = absurd (ground arith)
  position-names name k (x ∷ xs) [] e = absurd (ground arith)
  position-names name k (x ∷ xs) (y ∷ ys) e =
      let first : y.name ≡ x.name = cc in
      let later : channel_names ys ≡ channel_names xs = cc in
      let tails = position-names name (k + 1) xs ys later in rw (channel_position, first, tails)
