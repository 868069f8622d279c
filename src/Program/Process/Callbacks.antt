-- ===== src/Program/Process/Callbacks.antt =====
-- A callback of the process returns, and none finds the pool stopped.
use formula_one_telemetry_si.Prelude.{
  ℕ, ◌≡◌, refl, sym, ◌∙◌, ap, Bool, false, ◌&&◌, Option, none, some, List, [], ◌∷◌, ◌++◌,
  append-nil, ltb, length, if◌then◌else◌, Bool-cases, inl, inr, if-both, arith,
}
use formula_one_telemetry_si.Floats.{Floats}
use formula_one_telemetry_si.Types.{RaceControlEvent, DriverState, TrackProfile}
use formula_one_telemetry_si.Queue.{FifoQueue}
use formula_one_telemetry_si.RaceState.{RaceState}
use formula_one_telemetry_si.Pool.{Worker, waiting, running, exited}
use formula_one_telemetry_si.Telemetry
use formula_one_telemetry_si.TrackLimits
use formula_one_telemetry_si.Program.{Program, on_tick, sorted_by_position}
use formula_one_telemetry_si.Program.Live.{
  Live, Step, Reachable, new_live, with_race, entry_at, entry_reports,
}
use formula_one_telemetry_si.Program.Live.Progress.{callback_returns}
use formula_one_telemetry_si.Program.Process.{
  is_pool, Stage, starting_race, starting_generator, starting_consumer, watching, ending_race,
  stopping_generator, joining_generator, stopping_consumer, joining_consumer, reporting, leaving,
  joining_worker, Generating, Consuming, Process, worker_count, generator_joins, jobs_of,
  jobs_after, submit_jobs, main_step, consumer_step, move_one, end_tick, begin_tick,
  finish_callback, generator_step, worker_step, step, run, new_process, Turn, main_turn,
  generator_turn, consumer_turn, worker_turn, after,
}
use formula_one_telemetry_si.Program.Process.Control.{IsControlled}
use formula_one_telemetry_si.Program.Process.Turns.{step-Control, new_process-Control}

module _ {F Q W V : Type 0} ⦃f : Floats F⦄ (engine : Telemetry.World F V)
    (world : TrackLimits.World F W) (queue : FifoQueue Q RaceControlEvent) (tid : ℕ)
    (first : Live F Q W) where
  -- What callbacks, jobs and writes of the race state reach.
  abbrev pub IsLive : Live F Q W → Type 0
  IsLive l = (log : List RaceControlEvent) × Reachable world queue tid first log l

  IsLive-race : {l : Live F Q W} (race : RaceState F) → IsLive l → IsLive (with_race race l)
  IsLive-race race (log, r) = (log, Reachable.goes_on r (Step.race race) (sym (append-nil log)))

  main_step-IsLive :
      (st : Stage) (t : Bool) (s : Process F Q W V) → IsLive s.live → IsLive (main_step st t s).live
  unfolding main_step
  main_step-IsLive starting_race t s v = IsLive-race _ v
  main_step-IsLive ending_race t s v = IsLive-race _ v
  main_step-IsLive (leaving []) t s v = v
  main_step-IsLive (leaving (o ∷ os)) t s v =
      if-both (λ (z : Process F Q W V). IsLive z.live) (is_pool o) (λ _. v) (λ _. v)
  main_step-IsLive (joining_worker i os) t s v = v
  main_step-IsLive starting_generator t s v = v
  main_step-IsLive starting_consumer t s v = v
  main_step-IsLive watching t s v = v
  main_step-IsLive stopping_generator t s v = v
  main_step-IsLive joining_generator t s v = v
  main_step-IsLive stopping_consumer t s v = v
  main_step-IsLive joining_consumer t s v = v
  main_step-IsLive reporting t s v = v

  consumer_step-IsLive :
      (c : Consuming) (s : Process F Q W V) → IsLive s.live → IsLive (consumer_step c s).live
  unfolding consumer_step
  consumer_step-IsLive Consuming.unstarted s v = v
  consumer_step-IsLive Consuming.returned s v = v
  consumer_step-IsLive Consuming.polling s v =
      if-both (λ (z : Process F Q W V). IsLive z.live) s.consumer_stop (λ _. v)
        (λ _. IsLive-race _ v)
  consumer_step-IsLive Consuming.draining s v = IsLive-race _ v

  finish_callback-IsLive :
      (o : Option (Program F Q)) (s : Process F Q W V) (fuel : ℕ) (clock : ℕ → ℕ) (race_lap : ℕ)
      (states : List (DriverState F))
      → on_tick queue fuel clock tid race_lap states s.live.program ≡ o
      → IsLive s.live
      → IsLive (finish_callback engine world queue tid o s).live
  unfolding finish_callback
  finish_callback-IsLive none s fuel clock race_lap states e v = v
  finish_callback-IsLive (some p) s fuel clock race_lap states e (log, r) =
      if-both (λ (z : Process F Q W V). IsLive z.live)
        (s.pool.stop && ltb 0 (length (jobs_after (jobs_of s) p.flights.jobs))) (λ _. (log, r))
        (λ _. (
          log,
          Reachable.goes_on r (Step.callback fuel clock race_lap states p e) (sym (append-nil log)),
        ))

  generator_step-IsLive :
      (fuel : ℕ) (clock : ℕ → ℕ) (g : Generating F) (s : Process F Q W V)
      → IsLive s.live
      → IsLive (generator_step engine world queue tid fuel clock g s).live
  unfolding generator_step begin_tick end_tick move_one
  generator_step-IsLive fuel clock Generating.testing s v = v
  generator_step-IsLive fuel clock (Generating.moving moved (state ∷ rest)) s v = v
  generator_step-IsLive fuel clock (Generating.moving moved []) s v = v
  generator_step-IsLive fuel clock Generating.publishing s v =
      finish_callback-IsLive _ s fuel clock s.generator.race_lap s.generator.states refl v
  generator_step-IsLive fuel clock Generating.unstarted s v = v
  generator_step-IsLive fuel clock Generating.returned s v = v

  worker_step-IsLive :
      (i : ℕ) (coin : F) (now : ℕ) (w : Worker ℕ) (s : Process F Q W V)
      → IsLive s.live
      → IsLive (worker_step engine world queue tid i coin now w s).live
  unfolding worker_step
  worker_step-IsLive i coin now waiting s v = v
  worker_step-IsLive i coin now (running k) s (log, r) =
      let es = entry_reports world queue (entry_at (jobs_of s) k) s.live in
      (log ++ es, Reachable.goes_on r (Step.job k coin now) refl)
  worker_step-IsLive i coin now exited s v = v

  step-IsLive :
      (s : Process F Q W V) (t : Turn F)
      → IsLive s.live
      → IsLive (step engine world queue tid s t).live
  unfolding step
  step-IsLive s (main_turn t) v = main_step-IsLive s.stage t s v
  step-IsLive s (generator_turn fuel clock) v = generator_step-IsLive fuel clock s.generating s v
  step-IsLive s consumer_turn v = consumer_step-IsLive s.consuming s v
  step-IsLive s (worker_turn i coin now) v =
      if-both (λ (z : Process F Q W V). IsLive z.live) (ltb i worker_count)
        (λ _. worker_step-IsLive i coin now (s.pool.workers i) s v) (λ _. v)

  -- What the process keeps, whatever turn comes.
  pub record IsSound (s : Process F Q W V) : Type 0 where
    pub control : IsControlled s
    pub lives : IsLive s.live

  pub step-IsSound :
      (s : Process F Q W V) (t : Turn F) → IsSound s → IsSound (step engine world queue tid s t)
  step-IsSound s t v = record {
    control = step-Control engine world queue tid s t v.control;
    lives = step-IsLive s t v.lives;
  }

  pub run-IsSound :
      (s : Process F Q W V) (ts : List (Turn F))
      → IsSound s
      → IsSound (run engine world queue tid s ts)
  unfolding run
  run-IsSound s [] v = v
  run-IsSound s (t ∷ ts) v = run-IsSound (step engine world queue tid s t) ts (step-IsSound s t v)

module _ {F Q W V : Type 0} ⦃f : Floats F⦄ (engine : Telemetry.World F V)
    (world : TrackLimits.World F W) (queue : FifoQueue Q RaceControlEvent) (tid : ℕ) where
  open queue use {Holds}

  pub new_process-IsSound :
      (track : TrackProfile F) (events : Q) (limits : W) (w : V)
      → IsSound engine world queue tid
          (new_live events limits)
          (new_process engine track events limits w)
  unfolding new_process
  new_process-IsSound track events limits w = record {
    control = new_process-Control engine track events limits w;
    lives = IsLive-race engine world queue tid (new_live events limits) _ ([], Reachable.begins);
  }

  -- With the generator still in its loop the pool has not been stopped.
  pub pool_open :
      (s : Process F Q W V)
      → IsControlled s
      → generator_joins s.generating ≡ false
      → s.pool.stop ≡ false
  pool_open s c busy = elim (Bool-cases s.pool.stop) [
    | inl stopped ↦
        let late = c.pool_stopped stopped in
        let joined = c.generator_over (omega (arith, late)) in cc
    | inr going ↦ going
  ]

  -- The process after a callback.
  abbrev pub called : Program F Q → Process F Q W V → Process F Q W V
  called p s = record s {
    generating = Generating.testing;
    live = record s.live { program = p };
    pool = submit_jobs (length (jobs_of s)) (jobs_after (jobs_of s) p.flights.jobs) s.pool;
  }

  step-callback :
      (s : Process F Q W V) (fuel : ℕ) (clock : ℕ → ℕ) (p : Program F Q)
      → s.generating ≡ Generating.publishing
      → s.pool.stop ≡ false
      → on_tick queue fuel clock tid s.generator.race_lap s.generator.states s.live.program ≡ some p
      → step engine world queue tid s (generator_turn fuel clock) ≡ called p s
  unfolding step generator_step finish_callback
  step-callback s fuel clock p here open_ done =
      ap (λ g. generator_step engine world queue tid fuel clock g s) here
      ∙ ap (λ o. finish_callback engine world queue tid o s) done
      ∙ ap
          (λ (b : Bool).
            if b && ltb 0 (length (jobs_after (jobs_of s) p.flights.jobs)) then s else called p s)
          open_

  pub callback_done :
      (s : Process F Q W V) (events : Q) (limits : W) (clock : ℕ → ℕ)
      → Holds events []
      → IsSound engine world queue tid (new_live events limits) s
      → s.generating ≡ Generating.publishing
      → (fuel : ℕ) × (p : Program F Q) × (step engine world queue tid s (generator_turn fuel clock)
          ≡ called p s)
        × (p.leaderboard.standings ≡ sorted_by_position s.generator.states)
  callback_done s events limits clock empty v here =
      let (log, r) = v.lives in
      let ((fuel, p, done, board), _) =
        callback_returns world queue tid events limits s.live log clock s.generator.race_lap
          s.generator.states empty r in
      let open_ = pool_open s v.control (rw here refl) in
      (fuel, p, step-callback s fuel clock p here open_ done, board)

  -- After any turns of the threads of `main` over a new queue of events, where the generator's thread
  -- stands before its callback: on enough fuel the callback returns, with no exception from the
  -- leaderboard or from a stopped pool; the generator is back at the test of its loop, the leaderboard
  -- has the states by position, and the new jobs have been submitted to the pool.
  pub callback_completes :
      (track : TrackProfile F) (events : Q) (limits : W) (w : V) (ts : List (Turn F))
      (clock : ℕ → ℕ)
      → Holds events []
      → (after engine world queue tid track events limits w ts).generating ≡ Generating.publishing
      → let s = after engine world queue tid track events limits w ts in
        (fuel : ℕ) × (p : Program F Q) × (step engine world queue tid s (generator_turn fuel clock)
          ≡ called p s)
        × (p.leaderboard.standings ≡ sorted_by_position s.generator.states)
  callback_completes track events limits w ts clock empty =
      let s₀ = new_process engine track events limits w in
      let first = new_live events limits in
      callback_done (run engine world queue tid s₀ ts) events limits clock empty
        (run-IsSound engine world queue tid first s₀ ts (new_process-IsSound track events limits w))
