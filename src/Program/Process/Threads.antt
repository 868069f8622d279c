-- ===== src/Program/Process/Threads.antt =====
-- The local objects of `main`, where its threads stand, what they share, and the main thread.
use formula_one_telemetry_si.Prelude.{
  ℕ, suc, Bool, true, false, ◌||◌, List, [], ◌∷◌, ◌==◌, if◌then◌else◌,
}
use formula_one_telemetry_si.Types.{TelemetryFrame, DriverState}
use formula_one_telemetry_si.RaceState.{RaceState, start_race, end_race}
use formula_one_telemetry_si.LapTimes.{LapTimeConsumer}
use formula_one_telemetry_si.Pool
use formula_one_telemetry_si.Pool.{ThreadPool, Worker, waiting, running, exited}
use formula_one_telemetry_si.Telemetry.{TelemetryGenerator}
use formula_one_telemetry_si.Program.{Entry}
use formula_one_telemetry_si.Program.Live.{Live, with_race}

-- The local objects of `main` that other threads reach.
pub data Object : Type 0 where
  telemetry_queue race_control_queue leaderboard race_state generator track_limits penalty weather
        lap_consumer race_control_pool track_limits_future weather_future tick_counter :
      Object

-- The objects in the order in which the end of `main` destroys them, the last declared first.
abbrev pub locals : List Object
locals =
    tick_counter ∷ weather_future ∷ track_limits_future ∷ race_control_pool ∷ lap_consumer ∷ weather
    ∷ penalty ∷ track_limits ∷ generator ∷ race_state ∷ leaderboard ∷ race_control_queue
    ∷ telemetry_queue ∷ []

abbrev pub is_pool : Object → Bool
is_pool Object.race_control_pool = true
is_pool _ = false

-- Where the main thread stands: before the statement named, in the loop that watches the race, or at
-- the closing brace with the objects still to destroy. The destructor of the pool joins the worker `i`.
pub data Stage : Type 0 where
  starting_race starting_generator starting_consumer watching ending_race : Stage
  stopping_generator joining_generator stopping_consumer joining_consumer reporting : Stage
  leaving : (objects : List Object) → Stage
  joining_worker : (i : ℕ) (objects : List Object) → Stage

-- The objects that have not been destroyed.
abbrev pub alive : Stage → List Object
alive (leaving objects) = objects
alive (joining_worker i objects) = Object.race_control_pool ∷ objects
alive _ = locals

-- The generator's thread: before the test of its loop, in the loop over the cars, or before the callback.
pub data Generating (F : Type 0) : Type 0 where
  unstarted testing publishing returned : Generating F
  moving : (moved rest : List (DriverState F)) → Generating F

pub data Consuming : Type 0 where
  unstarted polling draining returned : Consuming

pub data Turn (F : Type 0) : Type 0 where
  main_turn : (timed_out : Bool) → Turn F
  generator_turn : (fuel : ℕ) (clock : ℕ → ℕ) → Turn F
  consumer_turn : Turn F
  worker_turn : (worker : ℕ) (coin : F) (now : ℕ) → Turn F

-- All that the threads share. `world` and the world of the limits stand for engines and clocks; the tasks
-- of the pool are the numbers of the jobs. `accepted` lists the frames that the ring accepted.
pub record Process (F Q W V : Type 0) : Type 0 where
  pub stage : Stage
  pub generating : Generating F
  pub generator_stop : Bool
  pub consuming : Consuming
  pub consumer_stop : Bool
  pub generator : TelemetryGenerator F
  pub world : V
  pub live : Live F Q W
  pub pool : ThreadPool ℕ
  pub accepted : List (TelemetryFrame F)

abbrev pub worker_count : ℕ
worker_count = 2

-- The end of a loop is joined, and so is a thread that has not been started (`joinable` is false).
abbrev pub generator_joins : {F : Type 0} → Generating F → Bool
generator_joins Generating.unstarted = true
generator_joins Generating.returned = true
generator_joins _ = false

abbrev pub consumer_joins : Consuming → Bool
consumer_joins Consuming.unstarted = true
consumer_joins Consuming.returned = true
consumer_joins _ = false

abbrev pub has_exited : {T : Type 0} → Worker T → Bool
has_exited exited = true
has_exited _ = false

-- The jobs `es`, the first of them the job `n`, are submitted.
abbrev pub submit_jobs : {F : Type 0} → ℕ → List (Entry F) → ThreadPool ℕ → ThreadPool ℕ
submit_jobs n [] pool = pool
submit_jobs n (e ∷ es) pool = submit_jobs (suc n) es (Pool.accept pool n)

-- The jobs of `new` beyond those of `es`.
abbrev pub jobs_after : {F : Type 0} → List (Entry F) → List (Entry F) → List (Entry F)
jobs_after [] new = new
jobs_after (e ∷ es) [] = []
jobs_after (e ∷ es) (n ∷ new) = jobs_after es new

module _ {F Q W V : Type 0} where
  abbrev pub jobs_of : Process F Q W V → List (Entry F)
  jobs_of s = s.live.program.flights.jobs

  abbrev pub race_of : Process F Q W V → RaceState F
  race_of s = s.live.program.race_state

  abbrev pub consumer_of : Process F Q W V → LapTimeConsumer F
  consumer_of s = record { queue = s.generator.queue; race_state = race_of s }

  -- The main thread.
  unfoldable pub main_step : Stage → Bool → Process F Q W V → Process F Q W V
  main_step starting_race t s = record s {
    stage = starting_generator;
    live = with_race (start_race (race_of s)) s.live;
  }
  main_step starting_generator t s = record s {
    stage = starting_consumer;
    generating = Generating.testing;
  }
  main_step starting_consumer t s = record s { stage = watching; consuming = Consuming.polling }
  main_step watching t s = record s {
    stage = if s.generator.race_finished || t then ending_race else watching;
  }
  main_step ending_race t s = record s {
    stage = stopping_generator;
    live = with_race (end_race (race_of s)) s.live;
  }
  main_step stopping_generator t s = record s { stage = joining_generator; generator_stop = true }
  main_step joining_generator t s = record s {
    stage = if generator_joins s.generating then stopping_consumer else joining_generator;
  }
  main_step stopping_consumer t s = record s { stage = joining_consumer; consumer_stop = true }
  main_step joining_consumer t s = record s {
    stage = if consumer_joins s.consuming then reporting else joining_consumer;
  }
  main_step reporting t s = record s { stage = leaving locals }
  main_step (leaving []) t s = s
  main_step (leaving (o ∷ objects)) t s =
      if is_pool o
      then record s { stage = joining_worker 0 objects; pool = Pool.step s.pool Pool.request_stop }
      else record s { stage = leaving objects }
  main_step (joining_worker i objects) t s = record s {
    stage =
        if i == worker_count
        then leaving objects
        else if has_exited (s.pool.workers i)
        then joining_worker (suc i) objects
        else joining_worker i objects;
  }
