-- ===== src/Program/Process/Workers.antt =====
-- What a turn leaves a worker of a stopped pool to do.
use formula_one_telemetry_si.Prelude.{
  ℕ, ◌+◌, ◌*◌, ◌<◌, ◌≡◌, refl, sym, ◌∙◌, ap, Bool, true, false, List, [], ◌∷◌, ltb, length,
  if◌then◌else◌, update_self, arith,
}
use mathlib.Core.Path.{subst}
use formula_one_telemetry_si.Floats.{Floats}
use formula_one_telemetry_si.Types.{RaceControlEvent}
use formula_one_telemetry_si.Queue.{FifoQueue}
use formula_one_telemetry_si.Pool
use formula_one_telemetry_si.Pool.{ThreadPool, Worker, waiting, running, exited, take_task}
use formula_one_telemetry_si.Telemetry
use formula_one_telemetry_si.Telemetry.{queue_capacity}
use formula_one_telemetry_si.TrackLimits
use formula_one_telemetry_si.Program.Process.{
  Process, worker_count, has_exited, worker_step, step, worker_turn,
}

module _ {F Q W V : Type 0} ⦃f : Floats F⦄ (engine : Telemetry.World F V)
    (world : TrackLimits.World F W) (queue : FifoQueue Q RaceControlEvent) (tid : ℕ) where
  abbrev pub on_worker : ℕ → Process F Q W V → Process F Q W V
  on_worker i s = step engine world queue tid s (worker_turn i f.largest 0)

  pub step-worker :
      (s : Process F Q W V) (i : ℕ) (w : Worker ℕ)
      → i < worker_count
      → s.pool.workers i ≡ w
      → on_worker i s ≡ worker_step engine world queue tid i f.largest 0 w s
  unfolding step
  step-worker s i w lt e =
      let among : ltb i worker_count ≡ true = ground arith in
      ap
        (λ (b : Bool).
          if b then worker_step engine world queue tid i f.largest 0 (s.pool.workers i) s else s)
        among
      ∙ ap (λ z. worker_step engine world queue tid i f.largest 0 z s) e

  -- What is left of the work of the worker `i`.
  abbrev weight : Worker ℕ → ℕ
  weight waiting = 1
  weight (running k) = 2
  weight exited = 0

  abbrev pub work : ℕ → Process F Q W V → ℕ
  work i s = 2 * length s.pool.tasks + weight (s.pool.workers i)

  -- With the pool stopped, a turn of a worker that has not exited leaves it less to do.
  take_less :
      (pool : ThreadPool ℕ) (i : ℕ) (ts : List ℕ)
      → pool.tasks ≡ ts
      → pool.stop ≡ true
      → let after = take_task pool i ts in
        2 * length after.tasks + weight (after.workers i) < 2 * length ts + 1
  unfolding take_task
  take_less pool i [] left stopped =
      rw (stopped, left, update_self pool.workers i exited) (omega arith)
  take_less pool i (t ∷ ts) left stopped = rw (update_self pool.workers i (running t)) (omega arith)

  pub works_less :
      (s : Process F Q W V) (i : ℕ) (w : Worker ℕ)
      → i < worker_count
      → s.pool.workers i ≡ w
      → s.pool.stop ≡ true
      → has_exited w ≡ false
      → work i (on_worker i s) < work i s
  unfolding worker_step Pool.step
  works_less s i waiting lt e stopped busy =
      let taken = take_task s.pool i s.pool.tasks in
      let now : (on_worker i s).pool ≡ taken =
        ap (λ (z : Process F Q W V). z.pool) (step-worker s i waiting lt e)
        ∙ ap (Pool.wake_worker s.pool i) e in
      let less = take_less s.pool i s.pool.tasks refl stopped in
      subst (λ (z : ThreadPool ℕ). 2 * length z.tasks + weight (z.workers i) < work i s) (sym now)
        (omega (arith, less, ap weight e))
  works_less s i (running k) lt e stopped busy =
      let ended = Pool.complete_task s.pool i (running k) in
      let now : (on_worker i s).pool ≡ ended =
        ap (λ (z : Process F Q W V). z.pool) (step-worker s i (running k) lt e)
        ∙ ap (Pool.complete_task s.pool i) e in
      subst (λ (z : ThreadPool ℕ). 2 * length z.tasks + weight (z.workers i) < work i s) (sym now)
        (omega (arith, ap weight (update_self s.pool.workers i waiting), ap weight e))
  works_less s i exited lt e stopped busy = cc
