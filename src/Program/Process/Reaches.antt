-- ===== src/Program/Process/Reaches.antt =====
-- The local objects of `main` that a turn reaches.
use formula_one_telemetry_si.Prelude.{
  ℕ, Bool, true, false, ◌&&◌, ◌||◌, Option, none, some, List, [], ◌∷◌, ◌==◌, ltb, if◌then◌else◌,
}
use formula_one_telemetry_si.Pool.{Worker, waiting, running, exited}
use formula_one_telemetry_si.Program.{Job, check_limits, update_weather, Entry}
use formula_one_telemetry_si.Program.Live.{entry_at}
use formula_one_telemetry_si.Program.Process.{
  Object, Stage, starting_race, starting_generator, starting_consumer, watching, ending_race,
  stopping_generator, joining_generator, stopping_consumer, joining_consumer, reporting, leaving,
  joining_worker, Generating, Consuming, Process, worker_count, jobs_of, Turn, main_turn,
  generator_turn, consumer_turn, worker_turn,
}

abbrev number : Object → ℕ
number Object.telemetry_queue = 0
number Object.race_control_queue = 1
number Object.leaderboard = 2
number Object.race_state = 3
number Object.generator = 4
number Object.track_limits = 5
number Object.penalty = 6
number Object.weather = 7
number Object.lap_consumer = 8
number Object.race_control_pool = 9
number Object.track_limits_future = 10
number Object.weather_future = 11
number Object.tick_counter = 12

abbrev pub is_among : Object → List Object → Bool
is_among o [] = false
is_among o (x ∷ xs) = (number o == number x) || is_among o xs

abbrev pub are_among : List Object → List Object → Bool
are_among [] those = true
are_among (o ∷ os) those = is_among o those && are_among os those

-- What a job reaches: its system, which pushes to the queue of events.
abbrev pub job_objects : {F : Type 0} → Job F → List Object
job_objects (check_limits states lap) = Object.track_limits ∷ Object.race_control_queue ∷ []
job_objects (update_weather lap) = Object.weather ∷ Object.race_control_queue ∷ []

abbrev pub entry_objects : {F : Type 0} → Option (Entry F) → List Object
entry_objects none = []
entry_objects (some e) = job_objects e.job

abbrev pub main_objects : Stage → List Object
main_objects starting_race = Object.race_state ∷ []
main_objects starting_generator = Object.generator ∷ []
main_objects starting_consumer = Object.lap_consumer ∷ []
main_objects watching =
    Object.generator ∷ Object.leaderboard ∷ Object.race_state ∷ Object.weather ∷ Object.penalty ∷ []
main_objects ending_race = Object.race_state ∷ []
main_objects stopping_generator = Object.generator ∷ []
main_objects joining_generator = Object.generator ∷ []
main_objects stopping_consumer = Object.lap_consumer ∷ []
main_objects joining_consumer = Object.lap_consumer ∷ []
main_objects reporting = Object.race_state ∷ Object.leaderboard ∷ Object.penalty ∷ []
main_objects (leaving []) = []
main_objects (leaving (o ∷ os)) = o ∷ []
main_objects (joining_worker i os) = Object.race_control_pool ∷ []

abbrev pub generator_objects : {F : Type 0} → Generating F → List Object
generator_objects Generating.unstarted = []
generator_objects Generating.returned = []
generator_objects Generating.testing = Object.generator ∷ []
generator_objects (Generating.moving moved rest) = Object.generator ∷ Object.telemetry_queue ∷ []
generator_objects Generating.publishing =
    Object.generator ∷ Object.leaderboard ∷ Object.race_state ∷ Object.tick_counter
    ∷ Object.track_limits_future ∷ Object.weather_future ∷ Object.race_control_pool ∷ Object.penalty
    ∷ Object.race_control_queue ∷ []

abbrev pub consumer_objects : Consuming → List Object
consumer_objects Consuming.unstarted = []
consumer_objects Consuming.returned = []
consumer_objects _ = Object.lap_consumer ∷ Object.telemetry_queue ∷ Object.race_state ∷ []

abbrev pub worker_objects : {F : Type 0} → List (Entry F) → Worker ℕ → List Object
worker_objects jobs waiting = Object.race_control_pool ∷ []
worker_objects jobs (running k) = Object.race_control_pool ∷ entry_objects (entry_at jobs k)
worker_objects jobs exited = []

-- The objects that a turn reaches.
abbrev pub reaches : {F Q W V : Type 0} → Process F Q W V → Turn F → List Object
reaches s (main_turn timed_out) = main_objects s.stage
reaches s (generator_turn fuel clock) = generator_objects s.generating
reaches s consumer_turn = consumer_objects s.consuming
reaches s (worker_turn i coin now) =
    if ltb i worker_count then worker_objects (jobs_of s) (s.pool.workers i) else []
