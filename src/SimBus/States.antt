-- ===== src/SimBus/States.antt =====
-- Which models are connected and ready: dse/modelc/adapter/simbus/states.c.
use dse_modelc.Base.{
  ℕ, Bool, true, ◌&&◌, Option, some, List, [], ◌∷◌, get_elem?, set, ◌==◌, ◌>>=◌, if◌then◌else◌,
}
use dse_modelc.SimBus.{UidSet, Channel, Bus}

module _ {D S : Type 0} (sets : UidSet S) where
  unfoldable pub network_ready : List (Channel D S) → Bool
  network_ready [] = true
  network_ready (c ∷ cs) =
      c.expected_model_count == sets.size c.model_register_set && network_ready cs

  unfoldable pub models_ready : List (Channel D S) → Bool
  models_ready [] = true
  models_ready (c ∷ cs) = c.expected_model_count == sets.size c.model_ready_set && models_ready cs

  unfoldable pub models_to_start : List (Channel D S) → List (Channel D S)
  models_to_start [] = []
  models_to_start (c ∷ cs) =
      record c { model_ready_set = sets.clear c.model_ready_set } ∷ models_to_start cs

  abbrev pub model_at_register : Channel D S → ℕ → Channel D S
  model_at_register c uid = record c { model_register_set = sets.add c.model_register_set uid }

  abbrev pub model_at_ready : Channel D S → ℕ → Channel D S
  model_at_ready c uid = record c { model_ready_set = sets.add c.model_ready_set uid }

  abbrev pub leave : Channel D S → ℕ → Channel D S
  leave c uid = record c {
    model_register_set = sets.remove c.model_register_set uid;
    model_ready_set = sets.remove c.model_ready_set uid;
  }

  -- No channel has a registered model.
  unfoldable pub nobody_registered : List (Channel D S) → Bool
  nobody_registered [] = true
  nobody_registered (c ∷ cs) = sets.size c.model_register_set == 0 && nobody_registered cs

  -- The channel at a position loses a model; when nobody is registered the run loop is left.
  unfoldable pub model_at_exit : Bus D S → ℕ → ℕ → Option (Bus D S)
  model_at_exit bus i uid = get_elem? bus.channels i >>= (λ c.
      let channels = set bus.channels i (leave c uid) in
      some (record bus {
        channels = channels;
        exit_run_loop = if nobody_registered channels then true else bus.exit_run_loop;
      }))
