-- ===== src/Program/Process/Finish.antt =====
-- Every job that is submitted runs before the pool is gone.
use formula_one_telemetry_si.Prelude.{
  ℕ, ◌≡◌, refl, true, false, List, [], drop, inl, inr, All, arith,
}
use mathlib.Core.Path.{subst}
use formula_one_telemetry_si.Floats.{Floats}
use formula_one_telemetry_si.Types.{RaceControlEvent, TrackProfile}
use formula_one_telemetry_si.Queue.{FifoQueue}
use formula_one_telemetry_si.Pool.{ThreadPool}
use formula_one_telemetry_si.Telemetry
use formula_one_telemetry_si.TrackLimits
use formula_one_telemetry_si.Program.Process.{
  alive, locals, Object, Stage, starting_race, leaving, joining_worker, worker_count, jobs_of, Turn,
  after,
}
use formula_one_telemetry_si.Program.Process.Control.{Left, Exited}
use formula_one_telemetry_si.Program.Process.Reaches.{is_among}
use formula_one_telemetry_si.Program.Process.Lifetimes.{at_most_3}
use formula_one_telemetry_si.Program.Process.Jobs.{Tracked-done}
use formula_one_telemetry_si.Program.Process.Tracking.{after-IsTracked}

-- A stage at which the pool has been destroyed.
pool_gone :
    (st : Stage) (pool : ThreadPool ℕ)
    → Left st pool
    → is_among Object.race_control_pool (alive st) ≡ false
    → Exited worker_count pool
pool_gone (leaving os) pool (inl (n, le, e)) gone =
    let there =
      at_most_3 (λ n. is_among Object.race_control_pool (drop n locals) ≡ true) refl refl refl refl
        n le in
    let both = subst (λ l. is_among Object.race_control_pool l ≡ false) e gone in cc
pool_gone (leaving os) pool (inr (over, out)) gone = out
pool_gone (joining_worker i os) pool l gone = cc
pool_gone starting_race pool l gone = cc
pool_gone _ pool l gone = cc

module _ {F Q W V : Type 0} ⦃f : Floats F⦄ (engine : Telemetry.World F V)
    (world : TrackLimits.World F W) (queue : FifoQueue Q RaceControlEvent) (tid : ℕ) where
  -- After any turns of the threads of `main` that have destroyed the pool: every job that was submitted
  -- has run to its end, so that every future is ready, and no task waits in the pool.
  pub jobs_done :
      (track : TrackProfile F) (events : Q) (limits : W) (w : V) (ts : List (Turn F))
      → is_among Object.race_control_pool
          (alive (after engine world queue tid track events limits w ts).stage)
        ≡ false
      → let s = after engine world queue tid track events limits w ts in
        All (λ e. e.ready ≡ true) (jobs_of s) × (s.pool.tasks ≡ [])
  jobs_done track events limits w ts gone =
      let s = after engine world queue tid track events limits w ts in
      let (c, v) = after-IsTracked engine world queue tid track events limits w ts in
      let out = pool_gone s.stage s.pool c.left gone in
      let (_, empty) = v.order.closed 0 (out 0 (omega arith)) in
      (Tracked-done (jobs_of s) s.pool empty out v.jobs, empty)
