-- ===== src/Program/Process/Turns.antt =====
-- Every turn of every thread keeps the order in which threads end.
use formula_one_telemetry_si.Prelude.{
  ℕ, suc, ◌≡◌, refl, sym, ◌∙◌, ◌⊎◌, inl, inr, Bool, true, false, ◌&&◌, Option, none, some, List, [],
  ◌∷◌, ltb, length, if-both, arith,
}
use mathlib.Core.Path.{subst}
use formula_one_telemetry_si.Floats.{Floats}
use formula_one_telemetry_si.Types.{RaceControlEvent, TrackProfile}
use formula_one_telemetry_si.Queue.{FifoQueue}
use formula_one_telemetry_si.Spsc.{pop}
use formula_one_telemetry_si.Pool
use formula_one_telemetry_si.Pool.{ThreadPool, Worker, waiting, running, exited}
use formula_one_telemetry_si.Pool.Exits.{Goes, wake-Goes, complete-Goes, accept-Goes}
use formula_one_telemetry_si.Telemetry
use formula_one_telemetry_si.Telemetry.{queue_capacity, new_generator}
use formula_one_telemetry_si.TrackLimits
use formula_one_telemetry_si.Program.{Entry, Program, on_tick}
use formula_one_telemetry_si.Program.Process.{
  Stage, leaving, joining_worker, Generating, Consuming, Process, worker_count, generator_joins,
  submit_jobs, jobs_after, jobs_of, consumer_step, move_one, end_tick, begin_tick, finish_callback,
  generator_step, worker_step, step, run, new_process, Turn, main_turn, generator_turn,
  consumer_turn, worker_turn,
}
use formula_one_telemetry_si.Program.Process.Control.{Control, IsControlled, Left, Exited}
use formula_one_telemetry_si.Program.Process.MainTurns.{main_step-Control}

module _ {T : Type 0} {old new : ThreadPool T} (goes : Goes old new) where
  Exited-pool : (n : ℕ) → Exited n old → Exited n new
  Exited-pool n out j lt = goes.still j (out j lt)

  Left-pool : (st : Stage) → Left st old → Left st new
  Left-pool (leaving os) (inl before) = inl before
  Left-pool (leaving os) (inr (over, out)) = inr (over, Exited-pool worker_count out)
  Left-pool (joining_worker i os) (objects, le, out) = (objects, le, Exited-pool i out)
  Left-pool Stage.starting_race l = l
  Left-pool Stage.starting_generator l = l
  Left-pool Stage.starting_consumer l = l
  Left-pool Stage.watching l = l
  Left-pool Stage.ending_race l = l
  Left-pool Stage.stopping_generator l = l
  Left-pool Stage.joining_generator l = l
  Left-pool Stage.stopping_consumer l = l
  Left-pool Stage.joining_consumer l = l
  Left-pool Stage.reporting l = l

  Control-pool :
      {F : Type 0} (st : Stage) (g : Generating F) (c : Consuming) (asked : Bool)
      → Control st g c asked old
      → Control st g c asked new
  Control-pool st g c asked v = record {
    generator_over = v.generator_over;
    consumer_over = v.consumer_over;
    consumer_started = v.consumer_started;
    stop_requested = v.stop_requested;
    drains = v.drains;
    drained = v.drained;
    pool_stopped = λ h. v.pool_stopped (sym goes.same_stop ∙ h);
    left = Left-pool st v.left;
  }

pub submit_jobs-Goes :
    {F : Type 0} (n : ℕ) (es : List (Entry F)) (pool : ThreadPool ℕ)
    → Goes pool (submit_jobs n es pool)
submit_jobs-Goes n [] pool = record { same_stop = refl; still = λ j e. e }
submit_jobs-Goes n (e ∷ es) pool =
    let a = accept-Goes pool n in
    let b = submit_jobs-Goes (suc n) es (Pool.accept pool n) in
    record { same_stop = b.same_stop ∙ a.same_stop; still = λ j e. b.still j (a.still j e) }

-- The generator goes on, where it has not been joined.
Control-generating :
    {T F : Type 0} {st : Stage} {c : Consuming} {asked : Bool} {pool : ThreadPool T}
    (g g' : Generating F)
    → generator_joins g ≡ false
    → Control st g c asked pool
    → Control st g' c asked pool
Control-generating g g' busy v = record {
  generator_over = λ h. let joined = v.generator_over h in cc;
  consumer_over = v.consumer_over;
  consumer_started = v.consumer_started;
  stop_requested = v.stop_requested;
  drains = v.drains;
  drained = v.drained;
  pool_stopped = v.pool_stopped;
  left = v.left;
}

-- The consumer goes on in its last loop, or begins it, where a stop has been requested.
Control-consuming :
    {T F : Type 0} {st : Stage} {g : Generating F} {asked : Bool} {pool : ThreadPool T}
    (c c' : Consuming)
    → asked ≡ true
    → (c ≡ Consuming.draining) ⊎ (c ≡ Consuming.polling)
    → (c' ≡ Consuming.draining) ⊎ (c' ≡ Consuming.returned)
    → Control st g c asked pool
    → Control st g c' asked pool
Control-consuming c c' stopped from to v = record {
  generator_over = v.generator_over;
  consumer_over = λ h. let over = v.consumer_over h in absurd (ground arith);
  consumer_started = λ h. absurd (ground arith);
  stop_requested = v.stop_requested;
  drains = λ _. stopped;
  drained = λ _. stopped;
  pool_stopped = v.pool_stopped;
  left = v.left;
}

module _ {F Q W V : Type 0} ⦃f : Floats F⦄ where
  consumer_step-Control :
      (c : Consuming) (s : Process F Q W V)
      → s.consuming ≡ c
      → Control s.stage s.generating c s.consumer_stop s.pool
      → IsControlled (consumer_step c s)
  unfolding consumer_step
  consumer_step-Control Consuming.polling s e v =
      if-both IsControlled s.consumer_stop
        (λ asked.
          Control-consuming Consuming.polling Consuming.draining asked (inr refl) (inl refl) v)
        (λ going. subst (λ c. Control s.stage s.generating c s.consumer_stop s.pool) (sym e) v)
  consumer_step-Control Consuming.draining s e v =
      if-both (λ c. Control s.stage s.generating c s.consumer_stop s.pool)
        (pop queue_capacity s.generator.queue).1 (λ more. v)
        (λ empty.
          Control-consuming Consuming.draining Consuming.returned (v.drains refl) (inl refl)
            (inr refl) v)
  consumer_step-Control Consuming.unstarted s e v = rw e v
  consumer_step-Control Consuming.returned s e v = rw e v

module _ {F Q W V : Type 0} ⦃f : Floats F⦄ (engine : Telemetry.World F V) where
  module _ (world : TrackLimits.World F W) (queue : FifoQueue Q RaceControlEvent) (tid : ℕ) where
    finish_callback-Control :
        (o : Option (Program F Q)) (s : Process F Q W V)
        → s.generating ≡ Generating.publishing
        → IsControlled s
        → IsControlled (finish_callback engine world queue tid o s)
    unfolding finish_callback
    finish_callback-Control none s e v = v
    finish_callback-Control (some p) s e v =
        let new = jobs_after (jobs_of s) p.flights.jobs in
        if-both IsControlled (s.pool.stop && ltb 0 (length new)) (λ _. v)
          (λ _.
            Control-pool (submit_jobs-Goes (length (jobs_of s)) new s.pool) s.stage
              Generating.testing s.consuming s.consumer_stop
              (Control-generating s.generating Generating.testing (rw e refl) v))

    generator_step-Control :
        (fuel : ℕ) (clock : ℕ → ℕ) (g : Generating F) (s : Process F Q W V)
        → s.generating ≡ g
        → IsControlled s
        → IsControlled (generator_step engine world queue tid fuel clock g s)
    unfolding generator_step begin_tick move_one end_tick
    generator_step-Control fuel clock Generating.testing s e v =
        Control-generating s.generating _ (rw e refl) v
    generator_step-Control fuel clock (Generating.moving moved (state ∷ rest)) s e v =
        Control-generating s.generating _ (rw e refl) v
    generator_step-Control fuel clock (Generating.moving moved []) s e v =
        Control-generating s.generating _ (rw e refl) v
    generator_step-Control fuel clock Generating.publishing s e v =
        finish_callback-Control
          (on_tick queue fuel clock tid s.generator.race_lap s.generator.states s.live.program) s e
          v
    generator_step-Control fuel clock Generating.unstarted s e v = v
    generator_step-Control fuel clock Generating.returned s e v = v

    worker_step-Control :
        (i : ℕ) (coin : F) (now : ℕ) (w : Worker ℕ) (s : Process F Q W V)
        → IsControlled s
        → IsControlled (worker_step engine world queue tid i coin now w s)
    unfolding worker_step
    worker_step-Control i coin now waiting s v =
        Control-pool (wake-Goes s.pool i) s.stage s.generating s.consuming s.consumer_stop v
    worker_step-Control i coin now (running k) s v =
        Control-pool (complete-Goes s.pool i) s.stage s.generating s.consuming s.consumer_stop v
    worker_step-Control i coin now exited s v = v

    pub step-Control :
        (s : Process F Q W V) (t : Turn F)
        → IsControlled s
        → IsControlled (step engine world queue tid s t)
    unfolding step
    step-Control s (main_turn t) v = main_step-Control s s.stage t refl v
    step-Control s (generator_turn fuel clock) v =
        generator_step-Control fuel clock s.generating s refl v
    step-Control s consumer_turn v = consumer_step-Control s.consuming s refl v
    step-Control s (worker_turn i coin now) v =
        if-both IsControlled (ltb i worker_count)
          (λ _. worker_step-Control i coin now (s.pool.workers i) s v) (λ _. v)

    pub run-Control :
        (s : Process F Q W V) (ts : List (Turn F))
        → IsControlled s
        → IsControlled (run engine world queue tid s ts)
    unfolding run
    run-Control s [] v = v
    run-Control s (t ∷ ts) v = run-Control (step engine world queue tid s t) ts (step-Control s t v)

  pub new_process-Control :
      (track : TrackProfile F) (events : Q) (limits : W) (w : V)
      → IsControlled (new_process engine track events limits w)
  unfolding new_process
  new_process-Control track events limits w = record {
    generator_over = λ h. absurd (omega (arith, h));
    consumer_over = λ h. absurd (omega (arith, h));
    consumer_started = λ _. omega arith;
    stop_requested = λ h. cc;
    drains = λ h. cc;
    drained = λ h. cc;
    pool_stopped = λ h. cc;
    left = tt;
  }
