-- ===== src/Program/Process/Untouched.antt =====
-- The callback and the jobs leave the fastest lap as it is.
use formula_one_telemetry_si.Prelude.{ℕ, ◌≡◌, refl, Option, none, some, List, if-both}
use formula_one_telemetry_si.Floats.{Floats}
use formula_one_telemetry_si.Types.{DriverState, RaceControlEvent}
use formula_one_telemetry_si.Queue.{FifoQueue}
use formula_one_telemetry_si.Leaderboard.{Leaderboard, update}
use formula_one_telemetry_si.Penalty.{PenaltyEnforcer, process_events}
use formula_one_telemetry_si.TrackLimits
use formula_one_telemetry_si.Program.{
  Program, Job, check_limits, update_weather, Entry, on_tick, after_tick, sorted_by_position,
}
use formula_one_telemetry_si.Program.Live.{Live, run_job, run_entry}
use formula_one_telemetry_si.Program.Process.Flowing.{SameFastest}

module _ {F Q : Type 0} ⦃f : Floats F⦄ where
  -- The callback stores the lap and nothing else in the race state.
  abbrev pub KeepsFastest : Program F Q → Option (Program F Q) → Type 0
  KeepsFastest p none = Unit
  KeepsFastest p (some p') = SameFastest p'.race_state p.race_state

  pub on_tick-KeepsFastest :
      (queue : FifoQueue Q RaceControlEvent) (fuel : ℕ) (clock : ℕ → ℕ) (tid race_lap : ℕ)
      (states : List (DriverState F)) (p : Program F Q)
      → KeepsFastest p (on_tick queue fuel clock tid race_lap states p)
  unfolding on_tick
  on_tick-KeepsFastest queue fuel clock tid race_lap states p =
      go (update p.leaderboard tid (sorted_by_position states))
    where
      inner :
          (board : Leaderboard F) (o : Option (PenaltyEnforcer Q))
          → KeepsFastest p (elim o [
            | none ↦ none
            | some penalty ↦ some (after_tick race_lap states board penalty p)
          ])
      inner board none = tt
      inner board (some penalty) = (refl, refl)

      go :
          (o : Option (Leaderboard F))
          → KeepsFastest p (elim o [
            | none ↦ none
            | some board ↦ elim (process_events F queue fuel clock p.penalty) [
              | none ↦ none
              | some penalty ↦ some (after_tick race_lap states board penalty p)
            ]
          ])
      go none = tt
      go (some board) = inner board (process_events F queue fuel clock p.penalty)

module _ {F Q W : Type 0} ⦃f : Floats F⦄ where
  -- A job leaves the race state alone.
  pub race-run_entry :
      (world : TrackLimits.World F W) (queue : FifoQueue Q RaceControlEvent) (coin : F) (now k : ℕ)
      (o : Option (Entry F)) (s : Live F Q W)
      → (run_entry world queue coin now k o s).program.race_state ≡ s.program.race_state
  unfolding run_job
  race-run_entry world queue coin now k none s = refl
  race-run_entry world queue coin now k (some e) s =
      if-both (λ (z : Live F Q W). z.program.race_state ≡ s.program.race_state) e.ready (λ _. refl)
        (λ _. go e.job)
    where
      go :
          (j : Job F) → (run_job world queue coin now j s).program.race_state ≡ s.program.race_state
      go (check_limits states lap) = refl
      go (update_weather lap) = refl
