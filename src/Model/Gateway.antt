-- ===== src/Model/Gateway.antt =====
-- The gateway, which keeps an outside simulation and the SimBus in step: __model_gw_step__() and
-- model_gw_sync() of dse/modelc/model/gateway.c. modelc_sync() is given, as what it does to the
-- simulation; the loop takes a number of rounds, and `none` is what is left when they are used up.
use dse_modelc.Base.{
  ℕ, zero, suc, ◌<◌, ◌≤◌, Bool-cases, dec_lt, ◌≡◌, ◌≢◌, ◌⊎◌, refl, inl, inr, true, false, Option,
  none, some, arith, ◌==◌, if◌then◌else◌,
}
use dse_modelc.Double.{Double}

-- modelc_sync(), and the model time of the adapter model.
pub record Sync (D W : Type 0) : Type 0 where
  pub sync : W → ℕ × W
  pub model_time : W → D

-- E_GATEWAYBEHIND
abbrev pub gateway_behind : ℕ
gateway_behind = 3001

-- The code, and the model time that the step leaves.
unfoldable pub gw_step : {D : Type 0} → D → D → ℕ × D
gw_step model_time stop_time = (0, stop_time)

-- The target time with the clock's epsilon.
unfoldable pub adjusted : {D : Type 0} → Double D → D → D → D
adjusted double clock_epsilon model_time =
    if double.lt double.zero clock_epsilon then double.add model_time clock_epsilon else model_time

module _ {D W : Type 0} (double : Double D) (s : Sync D W) where
  unfoldable pub sync_loop : ℕ → D → W → Option (ℕ × W)
  sync_loop zero target w = none
  sync_loop (suc rounds) target w =
      if double.le (s.model_time w) target
      then elim ((s.sync w).0 == 0) [
        | true ↦ sync_loop rounds target (s.sync w).1
        | false ↦ some (s.sync w)
      ]
      else some (0, w)

  unfoldable pub model_gw_sync : ℕ → D → D → W → Option (ℕ × W)
  model_gw_sync rounds clock_epsilon model_time w =
      let target = adjusted double clock_epsilon model_time in
      if double.lt target (s.model_time w)
      then some (gateway_behind, w)
      else sync_loop rounds target w

  -- What the simulation is after some syncs.
  abbrev pub after_syncs : ℕ → W → W
  after_syncs zero w = w
  after_syncs (suc n) w = after_syncs n (s.sync w).1

  -- The first n syncs are due, since the model time is up to the target, and succeed.
  abbrev pub AreDue : D → ℕ → W → Type 0
  AreDue target zero w = Unit
  AreDue target (suc n) w =
      (double.le (s.model_time w) target ≡ true) × ((s.sync w).0 ≡ 0) × AreDue target n (s.sync w).1

  -- The loop ends here: the model time is past the target, or the sync fails.
  abbrev pub IsEnd : D → W → Type 0
  IsEnd target w = (double.le (s.model_time w) target ≡ false) ⊎ ((s.sync w).0 ≢ 0)

  -- The code and the simulation at the end: 0 and nothing is synced past the target, and the code
  -- of the failed sync before.
  abbrev pub end_result : D → W → ℕ × W
  end_result target w = if double.le (s.model_time w) target then s.sync w else (0, w)

  sync_loop-due :
      (n rounds : ℕ) (target : D) (w : W)
      → AreDue target n w
      → IsEnd target (after_syncs n w)
      → n < rounds
      → sync_loop rounds target w ≡ some (end_result target (after_syncs n w))
  unfolding sync_loop
  sync_loop-due n zero target w due end h = absurd (omega arith)
  sync_loop-due zero (suc rounds) target w due (inl past) h = rw (sync_loop, past)
  sync_loop-due zero (suc rounds) target w due (inr failed) h =
      let code : ((s.sync w).0 == 0) ≡ false = ground arith in
      elim (Bool-cases (double.le (s.model_time w) target)) [
        | inr past ↦ rw (sync_loop, past)
        | inl before ↦ rw (sync_loop, before, code)
      ]
  sync_loop-due (suc n) (suc rounds) target w (before, ok, due) end h =
      let code : ((s.sync w).0 == 0) ≡ true = ground arith in
      rw (sync_loop, before, code)
        (sync_loop-due n rounds target (s.sync w).1 due end (omega arith))

  sync_loop-short :
      (n rounds : ℕ) (target : D) (w : W)
      → AreDue target n w
      → rounds ≤ n
      → sync_loop rounds target w ≡ none
  unfolding sync_loop
  sync_loop-short n zero target w due h = refl
  sync_loop-short zero (suc rounds) target w due h = absurd (omega arith)
  sync_loop-short (suc n) (suc rounds) target w (before, ok, due) h =
      let code : ((s.sync w).0 == 0) ≡ true = ground arith in
      rw (sync_loop, before, code) (sync_loop-short n rounds target (s.sync w).1 due (omega arith))

-- What model_gw_sync() does with a simulation whose first n syncs are due, since the model time is
-- up to the target, and succeed, and after which the model time is past the target or the next sync
-- fails. If the target is before the model time at the start, then the code is E_GATEWAYBEHIND
-- and nothing is synced. If not, then the n syncs are made, in just that many rounds and one more,
-- and the code is 0 if the model time is then past the target, and that of the next sync if not.
pub model_gw_sync-due :
    {D W : Type 0} (double : Double D) (s : Sync D W) (clock_epsilon model_time : D) (w : W) (n : ℕ)
    → AreDue double s (adjusted double clock_epsilon model_time) n w
    → IsEnd double s (adjusted double clock_epsilon model_time) (after_syncs double s n w)
    → (rounds : ℕ)
    → let target = adjusted double clock_epsilon model_time in
      ((double.lt target (s.model_time w) ≡ true)
        × (model_gw_sync double s rounds clock_epsilon model_time w ≡ some (gateway_behind, w)))
      ⊎ ((double.lt target (s.model_time w) ≡ false)
          × (((n < rounds)
                × (model_gw_sync double s rounds clock_epsilon model_time w
                    ≡ some (end_result double s target (after_syncs double s n w))))
              ⊎ ((rounds ≤ n) × (model_gw_sync double s rounds clock_epsilon model_time w ≡ none))))
unfolding model_gw_sync
model_gw_sync-due double s clock_epsilon model_time w n due end rounds =
    let target = adjusted double clock_epsilon model_time in
    elim (Bool-cases (double.lt target (s.model_time w))) [
      | inl behind ↦ inl (behind, rw (model_gw_sync, behind))
      | inr level ↦ inr (
        level,
        elim (dec_lt n rounds) [
          | yes enough ↦ inl (
            enough,
            rw (model_gw_sync, level) (sync_loop-due double s n rounds target w due end enough),
          )
          | no short ↦
              let few : rounds ≤ n = omega arith in
              inr (
                few,
                rw (model_gw_sync, level) (sync_loop-short double s n rounds target w due few),
              )
        ],
      )
    ]
