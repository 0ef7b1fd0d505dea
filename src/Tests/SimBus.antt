-- ===== src/Tests/SimBus.antt =====
-- A bus with one channel of two models and two signals.
use dse_modelc.Base.{
  ℕ, suc, ◌≡◌, ◌≢◌, ◌↔◌, ◌⊎◌, refl, true, false, some, Bool-cases, inl, inr, List, [], ◌∷◌, arith,
  All, get_elem?, set, take, ◌==◌, if◌then◌else◌,
}
use dse_modelc.SimBus.{UidSet, SignalValue, Channel, Bus}
use dse_modelc.SimBus.Index.Lookup.{IsSound}
use dse_modelc.SimBus.States.{models_ready}
use dse_modelc.SimBus.Handler.{receive_signal, changed_signals}
use dse_modelc.SimBus.Handler.Receive.{receive_signal-IsSound}
use dse_modelc.SimBus.Barrier.{
  has_uid, distinct, report_ready, update, IsTold, models_ready-distinct, changed_signals-update,
}
use dse_modelc.Tests.Common.{whole}

-- A set as the list of what was added to it; its size counts the different uids.
abbrev pub remove_uid : List ℕ → ℕ → List ℕ
remove_uid [] u = []
remove_uid (v ∷ s) u = if v == u then remove_uid s u else v ∷ remove_uid s u

pub has_uid-remove_uid :
    (s : List ℕ) (u v : ℕ) → has_uid v (remove_uid s u) ≡ (if u == v then false else has_uid v s)
has_uid-remove_uid [] u v = ground arith
has_uid-remove_uid (w ∷ s) u v = elim (Bool-cases (w == u)) [
  | inl e ↦ rw e (ground (arith, has_uid-remove_uid s u v))
  | inr e ↦ rw e (ground (arith, has_uid-remove_uid s u v))
]

pub distinct-remove_uid :
    (s : List ℕ) (u : ℕ)
    → (if has_uid u s then suc (distinct (remove_uid s u)) else distinct (remove_uid s u))
      ≡ distinct s
distinct-remove_uid [] u = refl
distinct-remove_uid (w ∷ s) u = elim (Bool-cases (w == u)) [
  | inl e ↦
      let same : w ≡ u = ground arith in rw (e, same) (ground (arith, distinct-remove_uid s u))
  | inr e ↦ rw e (ground (arith, distinct-remove_uid s u, has_uid-remove_uid s u w))
]

abbrev pub uid_lists : UidSet (List ℕ)
uid_lists = record {
  add = λ s u. u ∷ s;
  remove = remove_uid;
  clear = λ s. [];
  size = distinct;
  has = λ s u. has_uid u s;
  size_add = λ s u. refl;
  has_add = λ s u v. refl;
  size_remove = distinct-remove_uid;
  has_remove = has_uid-remove_uid;
  size_clear = λ s. refl;
  has_clear = λ s u. refl;
}

abbrev pub speed : SignalValue ℕ
speed = record { name = 115 ∷ []; uid = 21; vector_index = 0; val = 3; final_val = 4; bin = [] }

abbrev pub frames : SignalValue ℕ
frames = record {
  name = 102 ∷ [];
  uid = 22;
  vector_index = 1;
  val = 0;
  final_val = 0;
  bin = 1 ∷ 2 ∷ [];
}

abbrev pub channel : Channel ℕ (List ℕ)
channel = record {
  name = 99 ∷ [];
  signal_values = speed ∷ frames ∷ [];
  names = true;
  count = 2;
  hash_code = 0;
  uid2sv_lookup = (22, 1) ∷ [];
  model_register_set = 7 ∷ 8 ∷ [];
  model_ready_set = 8 ∷ 7 ∷ [];
  expected_model_count = 2;
}

pub channel-IsSound : IsSound channel
channel-IsSound = ((frames, refl, refl), tt)

abbrev pub bus : Bus ℕ (List ℕ)
bus = record {
  model_uid = 1;
  channels = channel ∷ [];
  bus_time = 10;
  bus_step_size = 2;
  bus_time_correction = 0;
  exit_run_loop = false;
}

barrier_example :
    (models_ready uid_lists
        (report_ready uid_lists (record channel { model_ready_set = [] }) (7 ∷ 8 ∷ 7 ∷ []) ∷ [])
      ≡ true)
    ↔ (channel.expected_model_count ≡ distinct (7 ∷ 8 ∷ 7 ∷ []))
barrier_example = models_ready-distinct uid_lists channel (7 ∷ 8 ∷ 7 ∷ [])

update_example :
    let sent = changed_signals whole (speed ∷ frames ∷ []) in
    All (λ x. x.0 ≢ 0) sent
    × All (IsTold whole (λ u. 3) (update whole sent (λ u. 3))) (speed ∷ frames ∷ [])
    × ((u : ℕ)
        → (u ≡ 0) ⊎ All (λ sv. sv.uid ≢ u) (speed ∷ frames ∷ [])
        → update whole sent (λ u. 3) u ≡ 3)
update_example =
    changed_signals-update whole (speed ∷ frames ∷ []) (λ u. 3) ((inr (omega arith), tt), (tt, tt))

receive_example :
    (c' : Channel ℕ (List ℕ)) × (receive_signal channel (21, 5) ≡ some c')
    × IsSound c'
    × ((All (λ sv. sv.uid ≢ 21) (take 2 channel.signal_values)
          × (c'.signal_values ≡ channel.signal_values))
        ⊎ ((i : ℕ) × (sv : SignalValue ℕ) × (get_elem? channel.signal_values i ≡ some sv)
            × (sv.uid ≡ 21)
            × (c'.signal_values ≡ set channel.signal_values i (record sv { final_val = 5 }))))
receive_example = receive_signal-IsSound channel 21 5 channel-IsSound (omega arith)
