-- ===== src/Program/Process/Apart.antt =====
-- The workers of the pool never run two jobs of one kind at a time: the random numbers of the
-- track-limits monitor, and those of the weather, are drawn by one thread only.
use formula_one_telemetry_si.Prelude.{ℕ, ◌≡◌, ◌∙◌, sym, ap, true, some, List}
use mathlib.Core.Path.{subst}
use formula_one_telemetry_si.Floats.{Floats}
use formula_one_telemetry_si.Types.{RaceControlEvent, TrackProfile}
use formula_one_telemetry_si.Queue.{FifoQueue}
use formula_one_telemetry_si.Pool.{running}
use formula_one_telemetry_si.Telemetry
use formula_one_telemetry_si.TrackLimits
use formula_one_telemetry_si.Program.{Entry}
use formula_one_telemetry_si.Program.Exclusive.{is_check, is_going, Single-unique, entry-is_going}
use formula_one_telemetry_si.Program.Live.{entry_at}
use formula_one_telemetry_si.Program.Process.{jobs_of, Turn, after}
use formula_one_telemetry_si.Program.Process.Tracking.{after-IsTracked}

module _ {F Q W V : Type 0} ⦃f : Floats F⦄ (engine : Telemetry.World F V)
    (world : TrackLimits.World F W) (queue : FifoQueue Q RaceControlEvent) (tid : ℕ) where
  -- After any turns of the threads of `main`, where two workers run jobs of one kind, two track-limits
  -- checks or two weather updates: they are the same worker.
  pub workers_apart :
      (track : TrackProfile F) (events : Q) (limits : W) (w : V) (ts : List (Turn F)) (i j k l : ℕ)
      (d e : Entry F)
      → let s = after engine world queue tid track events limits w ts in
        s.pool.workers i ≡ running k
        → s.pool.workers j ≡ running l
        → entry_at (jobs_of s) k ≡ some d
        → entry_at (jobs_of s) l ≡ some e
        → is_check d.job ≡ is_check e.job
        → i ≡ j
  workers_apart track events limits w ts i j k l d e runs runs' at at' kind =
      let s = after engine world queue tid track events limits w ts in
      let (_, v) = after-IsTracked engine world queue tid track events limits w ts in
      let c = v.counted in
      let goes = entry-is_going (jobs_of s) k d at (c.goes_on i k runs) in
      let goes' = entry-is_going (jobs_of s) l e at' (c.goes_on j l runs') in
      let same =
        Single-unique s.live.program.flights (is_check d.job) k l v.single goes
          (subst (λ b. is_going b (jobs_of s) l ≡ true) (sym kind) goes') in
      c.alone i j k runs (runs' ∙ ap running (sym same))
