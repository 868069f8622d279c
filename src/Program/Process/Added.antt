-- ===== src/Program/Process/Added.antt =====
-- The jobs that a callback adds, and those that a worker has run.
use formula_one_telemetry_si.Prelude.{
  ℕ, suc, ◌≡◌, refl, sym, ◌∙◌, ap, ◌==◌, ◌%◌, Option, none, some, List, [], ◌∷◌, ◌++◌, append-nil,
  append_assoc, if◌then◌else◌, if-both, All-append,
}
use mathlib.Core.Path.{subst}
use formula_one_telemetry_si.Floats.{Floats}
use formula_one_telemetry_si.Types.{RaceControlEvent, DriverState}
use formula_one_telemetry_si.Queue.{FifoQueue}
use formula_one_telemetry_si.Leaderboard.{Leaderboard, update}
use formula_one_telemetry_si.Penalty.{PenaltyEnforcer, process_events}
use formula_one_telemetry_si.TrackLimits
use formula_one_telemetry_si.Program.{
  Job, check_limits, update_weather, Entry, Flights, is_idle, Program, on_tick, start_check,
  start_weather, start_jobs, after_tick, sorted_by_position,
}
use formula_one_telemetry_si.Program.Live.{Live, run_job, run_entry, entry_at, keep_promise}
use formula_one_telemetry_si.Program.Exclusive.{Single, start_jobs-Single, keep_promise-Single}
use formula_one_telemetry_si.Program.Process.{jobs_after}
use formula_one_telemetry_si.Program.Process.Promises.{Unready}
use formula_one_telemetry_si.Program.Process.Jobs.{keep_promise-none, keep_promise-ready}

module _ {F : Type 0} where
  -- The jobs of a callback come after those before, and none of them has run.
  abbrev pub Extends : List (Entry F) → List (Entry F) → Type 0
  Extends jobs jobs' = (new : List (Entry F)) × (jobs' ≡ jobs ++ new) × Unready new

  Extends-start_check :
      (lap : ℕ) (states : List (DriverState F)) (s : Flights F)
      → Extends s.jobs (start_check lap states s).jobs
  unfolding start_check
  Extends-start_check lap states s =
      if-both (λ (z : Flights F). Extends s.jobs z.jobs) (is_idle s.jobs s.track_limits_future)
        (λ _. (_, refl, (refl, tt))) (λ _. ([], sym (append-nil s.jobs), tt))

  Extends-start_weather : (lap : ℕ) (s : Flights F) → Extends s.jobs (start_weather lap s).jobs
  unfolding start_weather
  Extends-start_weather lap s =
      if-both (λ (z : Flights F). Extends s.jobs z.jobs) (is_idle s.jobs s.weather_future)
        (λ _. (_, refl, (refl, tt))) (λ _. ([], sym (append-nil s.jobs), tt))

  Extends-start_jobs :
      (n lap : ℕ) (states : List (DriverState F)) (s : Flights F)
      → Extends s.jobs (start_jobs n lap states s).jobs
  unfolding start_jobs
  Extends-start_jobs n lap states s =
      let first : Flights F = if n % 9 == 0 then start_check lap states s else s in
      let (a, begun, before) : Extends s.jobs first.jobs =
        if-both (λ (z : Flights F). Extends s.jobs z.jobs) (n % 9 == 0)
          (λ _. Extends-start_check lap states s) (λ _. ([], sym (append-nil s.jobs), tt)) in
      let (b, ended, behind) = Extends-start_weather lap first in
      (
        a ++ b,
        ended ∙ ap (λ l. l ++ b) begun ∙ append_assoc s.jobs a b,
        All-append _ a b before behind,
      )

  pub jobs_after-append : (es new : List (Entry F)) → jobs_after es (es ++ new) ≡ new
  jobs_after-append [] new = refl
  jobs_after-append (e ∷ es) new = jobs_after-append es new

module _ {F Q : Type 0} ⦃f : Floats F⦄ where
  abbrev pub Adds : Program F Q → Option (Program F Q) → Type 0
  Adds p none = Unit
  Adds p (some p') = Extends p.flights.jobs p'.flights.jobs × (Single p.flights → Single p'.flights)

  pub on_tick-Adds :
      (queue : FifoQueue Q RaceControlEvent) (fuel : ℕ) (clock : ℕ → ℕ) (tid race_lap : ℕ)
      (states : List (DriverState F)) (p : Program F Q)
      → Adds p (on_tick queue fuel clock tid race_lap states p)
  unfolding on_tick
  on_tick-Adds queue fuel clock tid race_lap states p =
      go (update p.leaderboard tid (sorted_by_position states))
    where
      inner :
          (board : Leaderboard F) (o : Option (PenaltyEnforcer Q))
          → Adds p (elim o [
            | none ↦ none
            | some penalty ↦ some (after_tick race_lap states board penalty p)
          ])
      inner board none = tt
      inner board (some penalty) = (
        Extends-start_jobs (suc p.tick_counter) race_lap states p.flights,
        start_jobs-Single (suc p.tick_counter) race_lap states p.flights,
      )

      go :
          (o : Option (Leaderboard F))
          → Adds p (elim o [
            | none ↦ none
            | some board ↦ elim (process_events F queue fuel clock p.penalty) [
              | none ↦ none
              | some penalty ↦ some (after_tick race_lap states board penalty p)
            ]
          ])
      go none = tt
      go (some board) = inner board (process_events F queue fuel clock p.penalty)

module _ {F Q W : Type 0} ⦃f : Floats F⦄ (world : TrackLimits.World F W)
    (queue : FifoQueue Q RaceControlEvent) (coin : F) (now k : ℕ) where
  jobs-run_job :
      (j : Job F) (s : Live F Q W)
      → (run_job world queue coin now j s).program.flights ≡ s.program.flights
  unfolding run_job
  jobs-run_job (check_limits states lap) s = refl
  jobs-run_job (update_weather lap) s = refl

  pub jobs-run_entry :
      (s : Live F Q W) (o : Option (Entry F))
      → entry_at s.program.flights.jobs k ≡ o
      → (run_entry world queue coin now k o s).program.flights.jobs
        ≡ keep_promise s.program.flights.jobs k
  jobs-run_entry s none at = sym (keep_promise-none s.program.flights.jobs k at)
  jobs-run_entry s (some e) at =
      if-both (λ (z : Live F Q W). z.program.flights.jobs ≡ keep_promise s.program.flights.jobs k)
        e.ready (λ done. sym (keep_promise-ready s.program.flights.jobs k e at done))
        (λ _. ap (λ (l : Flights F). keep_promise l.jobs k) (jobs-run_job e.job s))

  pub run_entry-Single :
      (s : Live F Q W) (o : Option (Entry F))
      → Single s.program.flights
      → Single (run_entry world queue coin now k o s).program.flights
  run_entry-Single s none v = v
  run_entry-Single s (some e) v =
      if-both (λ (z : Live F Q W). Single z.program.flights) e.ready (λ _. v)
        (λ _.
          subst (λ (l : Flights F). Single (record l { jobs = keep_promise l.jobs k }))
            (sym (jobs-run_job e.job s)) (keep_promise-Single s.program.flights k v))
