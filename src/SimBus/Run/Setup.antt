-- ===== src/SimBus/Run/Setup.antt =====
-- A channel of the bus from its set-up on, while models ask for the uids of their signals.
use dse_modelc.Base.{ℕ, ◌≡◌, ◌⊎◌, Option, some, List, [], ◌∷◌, All, ◌>>=◌}
use dse_modelc.Double.{Double}
use dse_modelc.SimBus.{SignalValue, Channel}
use dse_modelc.SimBus.Index.{generate_index}
use dse_modelc.SimBus.Handler.{generate_uid_hash, lookup_all}
use dse_modelc.SimBus.Run.Names.{HasNames}

-- The requests of models for the uids of names, one after the other: what is answered, and the
-- channel, whose index is generated after each.
abbrev pub index_requests :
    {D S : Type 0}
    → Double D
    → Channel D S
    → List (List (List ℕ))
    → Option (List (List (List ℕ × ℕ)) × Channel D S)
index_requests double c [] = some ([], c)
index_requests double c (names ∷ requests) =
    lookup_all double c names
    >>= (λ r. index_requests double (generate_index r.1) requests >>= (λ s. some (r.0 ∷ s.0, s.1)))

-- A name's answer.
abbrev pub answered : List ℕ → List ℕ × ℕ
answered name = (name, generate_uid_hash name)

module _ {D : Type 0} (P : List ℕ → Type 0) where
  -- A signal has a name of those that are asked for, and no uid or the hash of its name.
  abbrev IsGiven : SignalValue D → Type 0
  IsGiven sv = P sv.name × ((sv.uid ≡ 0) ⊎ (sv.uid ≡ generate_uid_hash sv.name))

module _ {D S : Type 0} (double : Double D) (P : List ℕ → Type 0) where
  abbrev AreGiven : Channel D S → Type 0
  AreGiven c = All (IsGiven P) c.signal_values × HasNames c.signal_values
