-- ===== src/Program/Process/Report.antt =====
-- When the main thread prints its report, every frame that the ring accepted has been consumed.
use formula_one_telemetry_si.Prelude.{
  ℕ, ◌≤◌, ◌≡◌, ◌≢◌, refl, sym, ap, Bool, false, ◌&&◌, Option, none, some, List, [], ◌∷◌, ltb,
  length, if-both, arith,
}
use mathlib.Core.Path.{subst}
use formula_one_telemetry_si.Floats.{Floats, IsOrdered}
use formula_one_telemetry_si.Types.{DriverState, RaceControlEvent, TelemetryFrame, TrackProfile}
use formula_one_telemetry_si.Queue.{FifoQueue}
use formula_one_telemetry_si.RaceState.{RaceState, init}
use formula_one_telemetry_si.Spsc.{pop}
use formula_one_telemetry_si.LapTimes.{poll}
use formula_one_telemetry_si.Pool.{Worker, waiting, running, exited}
use formula_one_telemetry_si.Telemetry
use formula_one_telemetry_si.Telemetry.{queue_capacity, move_car, move_cars}
use formula_one_telemetry_si.Telemetry.Frames.{queue_capacity-IsCapacity as valid}
use formula_one_telemetry_si.TrackLimits
use formula_one_telemetry_si.Program.{Program}
use formula_one_telemetry_si.Program.Console.{fastest_driver}
use formula_one_telemetry_si.Program.Fastest.{ReportOf, fastest_driver_lem}
use formula_one_telemetry_si.Program.Live.{entry_at}
use formula_one_telemetry_si.Program.Process.{
  is_pool, Stage, starting_race, starting_generator, starting_consumer, watching, ending_race,
  stopping_generator, joining_generator, stopping_consumer, joining_consumer, reporting, leaving,
  joining_worker, Generating, Consuming, Process, worker_count, generator_joins, jobs_of,
  jobs_after, race_of, consumer_of, main_step, consumer_step, move_one, end_tick, begin_tick,
  finish_callback, generator_step, worker_step, step, run, new_process, Turn, main_turn,
  generator_turn, consumer_turn, worker_turn, after,
}
use formula_one_telemetry_si.Program.Process.Control.{IsControlled, rank}
use formula_one_telemetry_si.Program.Process.Turns.{step-Control, new_process-Control}
use formula_one_telemetry_si.Program.Process.Flowing.{
  SameFastest, Flowing, Flowing-race, Flowing-started, Flowing-push, Flowing-poll, Flowing-ends,
  new-Flowing,
}
use formula_one_telemetry_si.Program.Process.Untouched.{
  KeepsFastest, on_tick-KeepsFastest, race-run_entry,
}

module _ {F Q W V : Type 0} ⦃f : Floats F⦄ where
  abbrev pub Flows : Process F Q W V → Consuming → Type 0
  Flows s = Flowing valid s.generator.queue s.accepted (race_of s)

  abbrev pub IsFlowing : Process F Q W V → Type 0
  IsFlowing s = Flows s s.consuming

  main_step-Flowing :
      (st : Stage) (t : Bool) (s : Process F Q W V) → IsFlowing s → IsFlowing (main_step st t s)
  unfolding main_step
  main_step-Flowing starting_consumer t s v = Flowing-started valid v Consuming.polling (λ e. cc)
  main_step-Flowing starting_race t s v = Flowing-race valid v _ (refl, refl)
  main_step-Flowing ending_race t s v = Flowing-race valid v _ (refl, refl)
  main_step-Flowing (leaving []) t s v = v
  main_step-Flowing (leaving (o ∷ os)) t s v = if-both IsFlowing (is_pool o) (λ _. v) (λ _. v)
  main_step-Flowing (joining_worker i os) t s v = v
  main_step-Flowing starting_generator t s v = v
  main_step-Flowing watching t s v = v
  main_step-Flowing stopping_generator t s v = v
  main_step-Flowing joining_generator t s v = v
  main_step-Flowing stopping_consumer t s v = v
  main_step-Flowing joining_consumer t s v = v
  main_step-Flowing reporting t s v = v

  consumer_step-Flowing :
      (c : Consuming) (s : Process F Q W V)
      → s.consuming ≡ c
      → Flows s c
      → IsFlowing (consumer_step c s)
  unfolding consumer_step
  consumer_step-Flowing Consuming.unstarted s e v = subst (Flows s) (sym e) v
  consumer_step-Flowing Consuming.returned s e v = subst (Flows s) (sym e) v
  consumer_step-Flowing Consuming.polling s e v =
      if-both IsFlowing s.consumer_stop (λ _. Flowing-started valid v Consuming.draining (λ e. cc))
        (λ _.
          let c = poll queue_capacity (consumer_of s) in
          subst (Flowing valid c.queue s.accepted c.race_state) (sym e)
            (Flowing-poll valid v (λ e. cc)))
  consumer_step-Flowing Consuming.draining s e v =
      if-both (λ z. Flows (consumer_step Consuming.draining s) z)
        (pop queue_capacity s.generator.queue).1 (λ _. Flowing-poll valid v (λ e. cc))
        (λ empty. Flowing-ends valid v empty)

module _ {F Q W V : Type 0} ⦃f : Floats F⦄ (engine : Telemetry.World F V) where
  move_one-Flowing :
      (moved : List (DriverState F)) (state : DriverState F) (rest : List (DriverState F))
      (s : Process F Q W V)
      → s.consuming ≢ Consuming.returned
      → IsFlowing s
      → IsFlowing (move_one engine moved state rest s)
  unfolding move_one move_cars
  move_one-Flowing moved state rest s going v =
      Flowing-push valid v (move_car engine s.generator.track s.world state).0.latest_frame going

  module _ (world : TrackLimits.World F W) (queue : FifoQueue Q RaceControlEvent) (tid : ℕ) where
    finish_callback-Flowing :
        (o : Option (Program F Q)) (s : Process F Q W V)
        → KeepsFastest s.live.program o
        → IsFlowing s
        → IsFlowing (finish_callback engine world queue tid o s)
    unfolding finish_callback
    finish_callback-Flowing none s k v = v
    finish_callback-Flowing (some p) s k v =
        if-both IsFlowing (s.pool.stop && ltb 0 (length (jobs_after (jobs_of s) p.flights.jobs)))
          (λ _. v) (λ _. Flowing-race valid v p.race_state k)

    generator_step-Flowing :
        (fuel : ℕ) (clock : ℕ → ℕ) (g : Generating F) (s : Process F Q W V)
        → (generator_joins g ≡ false → s.consuming ≢ Consuming.returned)
        → IsFlowing s
        → IsFlowing (generator_step engine world queue tid fuel clock g s)
    unfolding generator_step begin_tick end_tick
    generator_step-Flowing fuel clock Generating.testing s going v = v
    generator_step-Flowing fuel clock (Generating.moving moved (state ∷ rest)) s going v =
        move_one-Flowing moved state rest s (going refl) v
    generator_step-Flowing fuel clock (Generating.moving moved []) s going v = v
    generator_step-Flowing fuel clock Generating.publishing s going v =
        finish_callback-Flowing _ s
          (on_tick-KeepsFastest queue fuel clock tid s.generator.race_lap s.generator.states
            s.live.program)
          v
    generator_step-Flowing fuel clock Generating.unstarted s going v = v
    generator_step-Flowing fuel clock Generating.returned s going v = v

    worker_step-Flowing :
        (i : ℕ) (coin : F) (now : ℕ) (w : Worker ℕ) (s : Process F Q W V)
        → IsFlowing s
        → IsFlowing (worker_step engine world queue tid i coin now w s)
    unfolding worker_step
    worker_step-Flowing i coin now waiting s v = v
    worker_step-Flowing i coin now (running k) s v =
        let same = race-run_entry world queue coin now k (entry_at (jobs_of s) k) s.live in
        Flowing-race valid v _
          (ap (λ r. r.fastest_lap_holder) same, ap (λ r. r.fastest_lap_ms) same)
    worker_step-Flowing i coin now exited s v = v

    -- A generator that has not been joined has a consumer that has not ended.
    consumer_going :
        (s : Process F Q W V)
        → IsControlled s
        → generator_joins s.generating ≡ false
        → s.consuming ≢ Consuming.returned
    consumer_going s c busy over =
        let late : 8 ≤ rank s.stage = c.stop_requested (c.drained over) in
        let joined = c.generator_over (omega (arith, late)) in cc

    pub step-Flowing :
        (s : Process F Q W V) (t : Turn F)
        → IsControlled s
        → IsFlowing s
        → IsFlowing (step engine world queue tid s t)
    unfolding step
    step-Flowing s (main_turn t) c v = main_step-Flowing s.stage t s v
    step-Flowing s (generator_turn fuel clock) c v =
        generator_step-Flowing fuel clock s.generating s (consumer_going s c) v
    step-Flowing s consumer_turn c v = consumer_step-Flowing s.consuming s refl v
    step-Flowing s (worker_turn i coin now) c v =
        if-both IsFlowing (ltb i worker_count)
          (λ _. worker_step-Flowing i coin now (s.pool.workers i) s v) (λ _. v)

    run-Flowing :
        (s : Process F Q W V) (ts : List (Turn F))
        → IsControlled s
        → IsFlowing s
        → IsControlled (run engine world queue tid s ts)
          × IsFlowing (run engine world queue tid s ts)
    unfolding run
    run-Flowing s [] c v = (c, v)
    run-Flowing s (t ∷ ts) c v =
        run-Flowing (step engine world queue tid s t) ts (step-Control engine world queue tid s t c)
          (step-Flowing s t c v)

-- The report of the fastest lap reads the fastest lap only.
ReportOf-SameFastest :
    {F : Type 0} ⦃f : Floats F⦄ (ts : List (TelemetryFrame F)) (r r' : RaceState F)
    → SameFastest r r'
    → ReportOf ts r'
    → ReportOf ts r
unfolding fastest_driver
ReportOf-SameFastest ts r r' (holder, time) v =
    subst (λ h. ReportOf ts (record r { fastest_lap_holder = h })) (sym holder)
      (subst (λ m. ReportOf ts (record r' { fastest_lap_ms = m })) (sym time) v)

-- On floats whose `<` is a strict order, after any turns of the threads of `main`, once the main thread
-- has joined the consumer: either the report of the fastest lap names no driver, and no frame that the
-- ring has accepted has a lap of a known driver under the largest `float`; or it names the driver of an
-- accepted frame whose lap time is above 0, with that lap time, and no accepted frame has a better lap
-- of a known driver.
pub report_complete :
    {F Q W V : Type 0} ⦃f : Floats F⦄ (laws : IsOrdered F) (engine : Telemetry.World F V)
    (world : TrackLimits.World F W) (queue : FifoQueue Q RaceControlEvent) (tid : ℕ)
    (track : TrackProfile F) (events : Q) (limits : W) (w : V) (ts : List (Turn F))
    → 9 ≤ rank (after engine world queue tid track events limits w ts).stage
    → let s = after engine world queue tid track events limits w ts in
      ReportOf s.accepted (race_of s)
unfolding new_process
report_complete laws engine world queue tid track events limits w ts late =
    let s₀ = new_process engine track events limits w in
    let s = run engine world queue tid s₀ ts in
    let (c, v) =
      run-Flowing engine world queue tid s₀ ts (new_process-Control engine track events limits w)
        (new-Flowing valid init (refl, refl)) in
    let all = v.settled (c.consumer_over late) in
    ReportOf-SameFastest s.accepted (race_of s) v.alone v.same
      (subst (ReportOf s.accepted) (sym all) (fastest_driver_lem laws s.accepted))
