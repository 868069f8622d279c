-- ===== src/Program/Process.antt =====
-- `main` of src/main.cpp with its threads: the main thread, which starts the generator and the consumer,
-- waits for the race, stops both, and destroys its local objects; the generator's thread, the
-- consumer's and the two workers of the pool. Threads take turns in any order. A turn of the generator
-- moves one car, with its push to the ring, or is a whole callback; a turn of the consumer is one call
-- of the ring; a worker takes a task, or runs it to its end.
mod Threads
pub mod Control
pub mod MainTurns
pub mod Reaches
pub mod Untouched
pub mod Added
pub mod Pending
pub mod Turns
pub mod Lifetimes
pub mod Flowing
pub mod Report
pub mod Callbacks
pub mod Jobs
pub mod Promises
pub mod Counted
pub mod Tracking
pub mod Finish
pub mod Apart
pub mod Asked
pub mod Workers
pub mod Ending
pub mod Joins
pub mod Returns
pub mod LapKept
pub mod Frozen
unfoldable pub use Threads.*
use formula_one_telemetry_si.Prelude.{
  ℕ, zero, suc, ◌-◌, Bool, true, false, ◌&&◌, ◌||◌, Option, none, some, List, [], ◌∷◌, ◌++◌, ◌==◌,
  ltb, length, if◌then◌else◌,
}
use formula_one_telemetry_si.Floats.{Floats}
use formula_one_telemetry_si.Types.{TelemetryFrame, TrackProfile, DriverState, RaceControlEvent}
use formula_one_telemetry_si.Queue.{FifoQueue}
use formula_one_telemetry_si.Spsc.{push, pop}
use formula_one_telemetry_si.RaceState.{RaceState, init, start_race, end_race}
use formula_one_telemetry_si.LapTimes.{LapTimeConsumer, poll}
use formula_one_telemetry_si.Pool
use formula_one_telemetry_si.Pool.{ThreadPool, Worker, waiting, running, exited}
use formula_one_telemetry_si.Telemetry
use formula_one_telemetry_si.Telemetry.{
  TelemetryGenerator, queue_capacity, move_car, move_cars, new_generator,
}
use formula_one_telemetry_si.Telemetry.Positions.{update_positions_and_drs}
use formula_one_telemetry_si.TrackLimits
use formula_one_telemetry_si.Program.{Job, check_limits, update_weather, Entry, Program, on_tick}
use formula_one_telemetry_si.Program.Live.{Live, new_live, with_race, entry_at, run_entry}
use formula_one_telemetry_si.Program.Process.Threads.{
  Object, locals, is_pool, Stage, starting_race, starting_generator, starting_consumer, watching,
  ending_race, stopping_generator, joining_generator, stopping_consumer, joining_consumer,
  reporting, leaving, joining_worker, Generating, Consuming, Turn, main_turn, generator_turn,
  consumer_turn, worker_turn, Process, worker_count, generator_joins, consumer_joins, has_exited,
  submit_jobs, jobs_after, jobs_of, race_of, consumer_of, main_step,
}

module _ {F Q W V : Type 0} ⦃f : Floats F⦄ where
  -- A round of the first loop of the consumer, or of the last once a stop is requested.
  unfoldable pub consumer_step : Consuming → Process F Q W V → Process F Q W V
  consumer_step Consuming.polling s =
      let c = poll queue_capacity (consumer_of s) in
      if s.consumer_stop then record s { consuming = Consuming.draining } else record s {
        generator = record s.generator { queue = c.queue };
        live = with_race c.race_state s.live;
      }
  consumer_step Consuming.draining s =
      let c = poll queue_capacity (consumer_of s) in
      let (_, done, _) = pop queue_capacity s.generator.queue in
      record s {
        consuming = if done then Consuming.draining else Consuming.returned;
        generator = record s.generator { queue = c.queue };
        live = with_race c.race_state s.live;
      }
  consumer_step Consuming.unstarted s = s
  consumer_step Consuming.returned s = s

module _ {F Q W V : Type 0} ⦃f : Floats F⦄ (engine : Telemetry.World F V) where
  -- One car of the loop of `tick`.
  unfoldable pub move_one :
      List (DriverState F)
      → DriverState F
      → List (DriverState F)
      → Process F Q W V
      → Process F Q W V
  move_one moved state rest s =
      let (moved', g, w) = move_cars engine (state ∷ []) s.generator s.world in
      let (state', _, _) = move_car engine s.generator.track s.world state in
      let (_, done) = push queue_capacity s.generator.queue state'.latest_frame in
      record s {
        generating = Generating.moving (moved ++ moved') rest;
        generator = g;
        world = w;
        accepted = if done then s.accepted ++ state'.latest_frame ∷ [] else s.accepted;
      }

  -- The end of `tick` before the callback.
  unfoldable pub end_tick : List (DriverState F) → Process F Q W V → Process F Q W V
  end_tick moved s = record s {
    generating = Generating.publishing;
    generator = record s.generator { states = update_positions_and_drs s.generator.track moved };
  }

  -- The test of the loop of `run`.
  unfoldable pub begin_tick : Process F Q W V → Process F Q W V
  begin_tick s = record s {
    generating =
        if s.generator_stop || s.generator.race_finished
        then Generating.returned
        else Generating.moving [] s.generator.states;
  }

  module _ (world : TrackLimits.World F W) (queue : FifoQueue Q RaceControlEvent) (tid : ℕ) where
    -- What the callback leaves, with its new jobs submitted to the pool, which throws once it is
    -- stopped.
    unfoldable pub finish_callback : Option (Program F Q) → Process F Q W V → Process F Q W V
    finish_callback none s = s
    finish_callback (some p) s =
        let new = jobs_after (jobs_of s) p.flights.jobs in
        if s.pool.stop && ltb 0 (length new) then s else record s {
          generating = Generating.testing;
          live = record s.live { program = p };
          pool = submit_jobs (length (jobs_of s)) new s.pool;
        }

    -- The generator's thread. A callback that throws, or that wants more fuel, leaves it where it is.
    unfoldable pub generator_step : ℕ → (ℕ → ℕ) → Generating F → Process F Q W V → Process F Q W V
    generator_step fuel clock Generating.testing s = begin_tick s
    generator_step fuel clock (Generating.moving moved (state ∷ rest)) s =
        move_one moved state rest s
    generator_step fuel clock (Generating.moving moved []) s = end_tick moved s
    generator_step fuel clock Generating.publishing s =
        finish_callback
          (on_tick queue fuel clock tid s.generator.race_lap s.generator.states s.live.program) s
    generator_step fuel clock Generating.unstarted s = s
    generator_step fuel clock Generating.returned s = s

    -- The worker `i` of the pool.
    unfoldable pub worker_step : ℕ → F → ℕ → Worker ℕ → Process F Q W V → Process F Q W V
    worker_step i coin now waiting s = record s { pool = Pool.step s.pool (Pool.wake i) }
    worker_step i coin now (running k) s = record s {
      live = run_entry world queue coin now k (entry_at (jobs_of s) k) s.live;
      pool = Pool.step s.pool (Pool.complete i);
    }
    worker_step i coin now exited s = s

    unfoldable pub step : Process F Q W V → Turn F → Process F Q W V
    step s (main_turn timed_out) = main_step s.stage timed_out s
    step s (generator_turn fuel clock) = generator_step fuel clock s.generating s
    step s consumer_turn = consumer_step s.consuming s
    step s (worker_turn i coin now) =
        if ltb i worker_count then worker_step i coin now (s.pool.workers i) s else s

    unfoldable pub run : Process F Q W V → List (Turn F) → Process F Q W V
    run s [] = s
    run s (t ∷ ts) = run (step s t) ts

  -- The objects as `main` builds them, over a new queue of events.
  unfoldable pub new_process : TrackProfile F → Q → W → V → Process F Q W V
  new_process track events limits w =
      let (g, w') = new_generator engine track w in
      record {
        stage = starting_race;
        generating = Generating.unstarted;
        generator_stop = false;
        consuming = Consuming.unstarted;
        consumer_stop = false;
        generator = g;
        world = w';
        live = with_race init (new_live events limits);
        pool = Pool.init;
        accepted = [];
      }

  module _ (world : TrackLimits.World F W) (queue : FifoQueue Q RaceControlEvent) (tid : ℕ) where
    -- The process after some turns from its beginning.
    abbrev pub after : TrackProfile F → Q → W → V → List (Turn F) → Process F Q W V
    after track events limits w ts = run world queue tid (new_process track events limits w) ts
