-- ===== src/Program/Process/Tracking.antt =====
-- The process keeps track of every job, from its submission to the end of its run.
use formula_one_telemetry_si.Prelude.{
  ℕ, suc, ◌<◌, ◌≡◌, refl, sym, ◌∙◌, ap, Bool, false, ◌&&◌, Option, none, some, List, [], ◌∷◌, ◌++◌,
  ltb, length, if-both, arith,
}
use mathlib.Core.Path.{subst}
use formula_one_telemetry_si.Floats.{Floats}
use formula_one_telemetry_si.Types.{RaceControlEvent, TrackProfile}
use formula_one_telemetry_si.Queue.{FifoQueue}
use formula_one_telemetry_si.Pool
use formula_one_telemetry_si.Pool.{ThreadPool, Worker, waiting, running, exited}
use formula_one_telemetry_si.Pool.Order
use formula_one_telemetry_si.Telemetry
use formula_one_telemetry_si.TrackLimits
use formula_one_telemetry_si.Program.{Entry, Program}
use formula_one_telemetry_si.Program.Live.{entry_at}
use formula_one_telemetry_si.Program.Process.{
  is_pool, Stage, starting_race, leaving, Generating, Consuming, Process, worker_count,
  generator_joins, jobs_of, jobs_after, submit_jobs, main_step, consumer_step, move_one, end_tick,
  begin_tick, finish_callback, generator_step, worker_step, step, run, new_process, Turn, main_turn,
  generator_turn, consumer_turn, worker_turn, after,
}
use formula_one_telemetry_si.Program.Process.Control.{IsControlled}
use formula_one_telemetry_si.Program.Process.Turns.{step-Control, new_process-Control}
use formula_one_telemetry_si.Program.Process.Callbacks.{pool_open}
use formula_one_telemetry_si.Program.Process.Pending.{Tracked}
use formula_one_telemetry_si.Program.Process.Jobs.{
  submit_jobs-Tracked, stop-Tracked, wake-Tracked, complete-Tracked,
}
use formula_one_telemetry_si.Program.Exclusive.{Single}
use formula_one_telemetry_si.Program.Process.Promises.{Unready}
use formula_one_telemetry_si.Program.Process.Counted.{
  Counted, init-Counted, submit_jobs-Counted, stop-Counted, wake-Counted, complete-Counted,
}
use formula_one_telemetry_si.Program.Process.Added.{
  jobs_after-append, Adds, on_tick-Adds, jobs-run_entry, run_entry-Single,
}

module _ {F Q W V : Type 0} ⦃f : Floats F⦄ where
  pub record IsTracked (s : Process F Q W V) : Type 0 where
    pub jobs : Tracked (jobs_of s) s.pool
    pub order : Pool.Order.Inv s.pool
    pub single : Single s.live.program.flights
    pub counted : Counted (jobs_of s) s.pool

  main_step-IsTracked :
      (st : Stage) (t : Bool) (s : Process F Q W V) → IsTracked s → IsTracked (main_step st t s)
  unfolding main_step
  main_step-IsTracked (leaving []) t s v = v
  main_step-IsTracked (leaving (o ∷ os)) t s v =
      if-both IsTracked (is_pool o)
        (λ _. record {
          jobs = stop-Tracked (jobs_of s) s.pool v.jobs;
          order = Pool.Order.step-Inv s.pool Pool.request_stop v.order;
          single = v.single;
          counted = stop-Counted (jobs_of s) s.pool v.counted;
        })
        (λ _. record { jobs = v.jobs; order = v.order; single = v.single; counted = v.counted })
  main_step-IsTracked starting_race t s v = record {
    jobs = v.jobs;
    order = v.order;
    single = v.single;
    counted = v.counted;
  }
  main_step-IsTracked _ t s v = record {
    jobs = v.jobs;
    order = v.order;
    single = v.single;
    counted = v.counted;
  }

  consumer_step-IsTracked :
      (c : Consuming) (s : Process F Q W V) → IsTracked s → IsTracked (consumer_step c s)
  unfolding consumer_step
  consumer_step-IsTracked Consuming.unstarted s v = v
  consumer_step-IsTracked Consuming.returned s v = v
  consumer_step-IsTracked Consuming.polling s v =
      if-both IsTracked s.consumer_stop
        (λ _. record { jobs = v.jobs; order = v.order; single = v.single; counted = v.counted })
        (λ _. record { jobs = v.jobs; order = v.order; single = v.single; counted = v.counted })
  consumer_step-IsTracked Consuming.draining s v = record {
    jobs = v.jobs;
    order = v.order;
    single = v.single;
    counted = v.counted;
  }

module _ {F Q W V : Type 0} ⦃f : Floats F⦄ (engine : Telemetry.World F V)
    (world : TrackLimits.World F W) (queue : FifoQueue Q RaceControlEvent) (tid : ℕ) where
  submit_jobs-Inv :
      (n : ℕ) (es : List (Entry F)) (pool : ThreadPool ℕ)
      → Pool.Order.Inv pool
      → Pool.Order.Inv (submit_jobs n es pool)
  submit_jobs-Inv n [] pool v = v
  submit_jobs-Inv n (e ∷ es) pool v =
      submit_jobs-Inv (suc n) es (Pool.accept pool n) (Pool.Order.accept-Inv pool n v)

  finish_callback-IsTracked :
      (o : Option (Program F Q)) (s : Process F Q W V)
      → s.pool.stop ≡ false
      → Adds s.live.program o
      → IsTracked s
      → IsTracked (finish_callback engine world queue tid o s)
  unfolding finish_callback
  finish_callback-IsTracked none s open_ adds v = v
  finish_callback-IsTracked (some p) s open_ ((new, added, unready), singles) v =
      let after = jobs_after (jobs_of s) p.flights.jobs in
      let found = sym (ap (jobs_after (jobs_of s)) added ∙ jobs_after-append (jobs_of s) new) in
      let same : p.flights.jobs ≡ jobs_of s ++ after = added ∙ ap (λ l. jobs_of s ++ l) found in
      if-both IsTracked (s.pool.stop && ltb 0 (length after)) (λ _. v)
        (λ _. record {
          jobs =
              subst (λ l. Tracked l (submit_jobs (length (jobs_of s)) after s.pool)) (sym same)
                (submit_jobs-Tracked (jobs_of s) after s.pool open_ v.jobs);
          order = submit_jobs-Inv (length (jobs_of s)) after s.pool v.order;
          single = singles v.single;
          counted =
              subst (λ l. Counted l (submit_jobs (length (jobs_of s)) after s.pool)) (sym same)
                (submit_jobs-Counted (jobs_of s) after s.pool open_ (subst Unready found unready)
                  v.counted);
        })

  generator_step-IsTracked :
      (fuel : ℕ) (clock : ℕ → ℕ) (g : Generating F) (s : Process F Q W V)
      → (generator_joins g ≡ false → s.pool.stop ≡ false)
      → IsTracked s
      → IsTracked (generator_step engine world queue tid fuel clock g s)
  unfolding generator_step begin_tick end_tick move_one
  generator_step-IsTracked fuel clock Generating.testing s o v = record {
    jobs = v.jobs;
    order = v.order;
    single = v.single;
    counted = v.counted;
  }
  generator_step-IsTracked fuel clock (Generating.moving moved (state ∷ rest)) s o v = record {
    jobs = v.jobs;
    order = v.order;
    single = v.single;
    counted = v.counted;
  }
  generator_step-IsTracked fuel clock (Generating.moving moved []) s o v = record {
    jobs = v.jobs;
    order = v.order;
    single = v.single;
    counted = v.counted;
  }
  generator_step-IsTracked fuel clock Generating.publishing s o v =
      finish_callback-IsTracked _ s (o refl)
        (on_tick-Adds queue fuel clock tid s.generator.race_lap s.generator.states s.live.program) v
  generator_step-IsTracked fuel clock Generating.unstarted s o v = v
  generator_step-IsTracked fuel clock Generating.returned s o v = v

  worker_step-IsTracked :
      (i : ℕ) (coin : F) (now : ℕ) (w : Worker ℕ) (s : Process F Q W V)
      → i < worker_count
      → s.pool.workers i ≡ w
      → IsTracked s
      → IsTracked (worker_step engine world queue tid i coin now w s)
  unfolding worker_step
  worker_step-IsTracked i coin now waiting s lt e v = record {
    jobs = wake-Tracked (jobs_of s) s.pool i lt e v.jobs;
    order = Pool.Order.step-Inv s.pool (Pool.wake i) v.order;
    single = v.single;
    counted = wake-Counted (jobs_of s) s.pool i v.counted e;
  }
  worker_step-IsTracked i coin now (running k) s lt e v = record {
    jobs =
        subst (λ l. Tracked l (Pool.step s.pool (Pool.complete i)))
          (sym (jobs-run_entry world queue coin now k s.live (entry_at (jobs_of s) k) refl))
          (complete-Tracked (jobs_of s) s.pool i k e v.jobs);
    order = Pool.Order.step-Inv s.pool (Pool.complete i) v.order;
    single = run_entry-Single world queue coin now k s.live (entry_at (jobs_of s) k) v.single;
    counted =
        subst (λ l. Counted l (Pool.step s.pool (Pool.complete i)))
          (sym (jobs-run_entry world queue coin now k s.live (entry_at (jobs_of s) k) refl))
          (complete-Counted (jobs_of s) s.pool i v.counted k e);
  }
  worker_step-IsTracked i coin now exited s lt e v = v

  step-IsTracked :
      (s : Process F Q W V) (t : Turn F)
      → IsControlled s
      → IsTracked s
      → IsTracked (step engine world queue tid s t)
  unfolding step
  step-IsTracked s (main_turn t) c v = main_step-IsTracked s.stage t s v
  step-IsTracked s (generator_turn fuel clock) c v =
      generator_step-IsTracked fuel clock s.generating s (pool_open engine world queue tid s c) v
  step-IsTracked s consumer_turn c v = consumer_step-IsTracked s.consuming s v
  step-IsTracked s (worker_turn i coin now) c v =
      if-both IsTracked (ltb i worker_count)
        (λ lt. worker_step-IsTracked i coin now (s.pool.workers i) s (ground arith) refl v) (λ _. v)

  pub run-IsTracked :
      (s : Process F Q W V) (ts : List (Turn F))
      → IsControlled s
      → IsTracked s
      → IsControlled (run engine world queue tid s ts) × IsTracked (run engine world queue tid s ts)
  unfolding run
  run-IsTracked s [] c v = (c, v)
  run-IsTracked s (t ∷ ts) c v =
      run-IsTracked (step engine world queue tid s t) ts (step-Control engine world queue tid s t c)
        (step-IsTracked s t c v)

  pub after-IsTracked :
      (track : TrackProfile F) (events : Q) (limits : W) (w : V) (ts : List (Turn F))
      → let s = after engine world queue tid track events limits w ts in
        IsControlled s × IsTracked s
  unfolding new_process
  after-IsTracked track events limits w ts =
      run-IsTracked (new_process engine track events limits w) ts
        (new_process-Control engine track events limits w)
        (record {
          jobs = λ k e at. cc;
          order = Pool.Order.init-Inv;
          single = (λ k h. cc, λ k h. cc);
          counted = init-Counted;
        })
