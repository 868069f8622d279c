-- ===== src/Tests/Processes.antt =====
-- The threads of `main`, over a list as the queue of events.
use formula_one_telemetry_si.Prelude.{
  ℕ, ◌≡◌, refl, true, false, some, List, [], ◌∷◌, ◌++◌, replicate, All, arith,
}
use formula_one_telemetry_si.Prelude.Text.{text_eq}
use formula_one_telemetry_si.Floats.Fixed.{Fixed, fixed_floats, Fixed-IsOrdered}
use formula_one_telemetry_si.Types.{RaceControlEvent}
use formula_one_telemetry_si.Season.{default_track, car_for_driver}
use formula_one_telemetry_si.Queue.{list_queue, drain}
use formula_one_telemetry_si.Spsc.{push, pop, next}
use formula_one_telemetry_si.LapTimes.{poll}
use formula_one_telemetry_si.Leaderboard.{update}
use formula_one_telemetry_si.Penalty.{process_events}
use formula_one_telemetry_si.Pool
use formula_one_telemetry_si.Pool.{running}
use formula_one_telemetry_si.Telemetry
use formula_one_telemetry_si.Telemetry.{move_cars, new_generator}
use formula_one_telemetry_si.Program.{
  Entry, update_weather, Program, on_tick, start_jobs, start_check, start_weather,
  sorted_by_position,
}
use formula_one_telemetry_si.Program.Live.{entry_at}
use formula_one_telemetry_si.Program.Fastest.{ReportOf}
use formula_one_telemetry_si.Program.Process.{
  Process, leaving, Generating, Object, alive, jobs_of, race_of, Turn, main_turn, generator_turn,
  consumer_turn, worker_turn, main_step, consumer_step, move_one, end_tick, begin_tick,
  finish_callback, generator_step, worker_step, step, run, new_process, after,
}
use formula_one_telemetry_si.Program.Process.Control.{rank}
use formula_one_telemetry_si.Program.Process.Reaches.{is_among, are_among, reaches}
use formula_one_telemetry_si.Program.Process.Lifetimes.{no_dangling}
use formula_one_telemetry_si.Program.Process.Report.{report_complete}
use formula_one_telemetry_si.Program.Process.Callbacks.{callback_completes, called}
use formula_one_telemetry_si.Program.Process.Finish.{jobs_done}
use formula_one_telemetry_si.Program.Process.Apart.{workers_apart}
use formula_one_telemetry_si.Program.Process.Returns.{main_returns}
use formula_one_telemetry_si.Program.Process.Frozen.{Frozen, joined-Frozen}
use formula_one_telemetry_si.Tests.Races.{calm}
use formula_one_telemetry_si.Tests.Consumers.{strict}

abbrev turn_of_generator : Turn Fixed
turn_of_generator = generator_turn 1 (λ k. k)

-- The starts, and a tick of the generator up to its callback.
abbrev one_tick : List (Turn Fixed)
one_tick = replicate 3 (main_turn false) ++ replicate 22 turn_of_generator

abbrev process : List (Turn Fixed) → Process Fixed (List RaceControlEvent) ℕ ℕ
process = after calm strict list_queue 7 default_track [] 0 0

one_tick-publishes : (process one_tick).generating ≡ Generating.publishing
unfolding run step main_step generator_step begin_tick move_one end_tick new_process move_cars
    Telemetry.grid
one_tick-publishes = refl

callback_completes_example :
    (fuel : ℕ) × (p : Program Fixed (List RaceControlEvent)) × (step calm strict list_queue 7
        (process one_tick)
        (generator_turn fuel (λ k. k))
      ≡ called calm strict list_queue 7 p (process one_tick))
    × (p.leaderboard.standings ≡ sorted_by_position (process one_tick).generator.states)
callback_completes_example =
    callback_completes calm strict list_queue 7 default_track [] 0 0 one_tick (λ k. k) refl
      one_tick-publishes

-- The callback starts a weather job, which a worker takes.
abbrev one_job : List (Turn Fixed)
one_job =
    one_tick
    ++ turn_of_generator ∷ worker_turn 0 (fixed_floats.ratio 1 10) 3 ∷ turn_of_generator ∷ []

abbrev weather_entry : Entry Fixed
weather_entry = record { job = update_weather (process one_job).generator.race_lap; ready = false }

one_job-runs : (process one_job).pool.workers 0 ≡ running 0
unfolding run step main_step generator_step begin_tick move_one end_tick finish_callback new_process
    move_cars Telemetry.grid on_tick process_events drain update start_jobs start_check
    start_weather worker_step Pool.step Pool.take_task Pool.accept
one_job-runs = refl

one_job-weather : entry_at (jobs_of (process one_job)) 0 ≡ some weather_entry
unfolding run step main_step generator_step begin_tick move_one end_tick finish_callback new_process
    move_cars Telemetry.grid on_tick process_events drain update start_jobs start_check
    start_weather worker_step Pool.step Pool.take_task Pool.accept
one_job-weather = refl

workers_apart_example : ◌≡◌ {A = ℕ} 0 0
workers_apart_example =
    workers_apart calm strict list_queue 7 default_track [] 0 0 one_job 0 0 0 0 weather_entry
      weather_entry one_job-runs one_job-runs one_job-weather one_job-weather refl

-- The callback, which starts a weather job, and the end of the race by the time limit; the consumer
-- takes the twenty frames and finds the ring empty.
abbrev to_report : List (Turn Fixed)
to_report =
    one_tick
    ++ turn_of_generator ∷ replicate 3 (main_turn true)
    ++ turn_of_generator ∷ replicate 2 (main_turn true)
    ++ replicate 22 consumer_turn
    ++ replicate 1 (main_turn true)

to_report-joined : rank (process to_report).stage ≡ 9
unfolding run step main_step consumer_step generator_step begin_tick move_one end_tick
    finish_callback new_process move_cars Telemetry.grid on_tick process_events drain update push
    pop poll Telemetry.move_car Telemetry.drive car_for_driver text_eq next
to_report-joined = refl

report_complete_example : ReportOf (process to_report).accepted (race_of (process to_report))
report_complete_example =
    report_complete Fixed-IsOrdered calm strict list_queue 7 default_track [] 0 0 to_report
      (rw to_report-joined (omega arith))

-- The objects up to the pool are destroyed, and the workers end, one of them after the weather job.
abbrev to_end : List (Turn Fixed)
to_end =
    to_report
    ++ replicate 5 (main_turn true)
    ++ replicate 3 (worker_turn 0 (fixed_floats.ratio 1 10) 3)
    ++ worker_turn 1 (fixed_floats.ratio 1 10) 3 ∷ replicate 3 (main_turn true)

no_dangling_example :
    are_among (reaches (process to_end) (main_turn true)) (alive (process to_end).stage) ≡ true
no_dangling_example =
    no_dangling calm strict list_queue 7 default_track [] 0 0 to_end (main_turn true)

to_end-pool_gone : is_among Object.race_control_pool (alive (process to_end).stage) ≡ false
unfolding run step main_step consumer_step generator_step begin_tick move_one end_tick
    finish_callback new_process move_cars Telemetry.grid on_tick process_events drain update push
    pop poll Telemetry.move_car Telemetry.drive car_for_driver text_eq next worker_step Pool.step
    Pool.take_task Pool.accept start_jobs start_check start_weather
to_end-pool_gone = refl

jobs_done_example :
    All (λ e. e.ready ≡ true) (jobs_of (process to_end)) × ((process to_end).pool.tasks ≡ [])
jobs_done_example = jobs_done calm strict list_queue 7 default_track [] 0 0 to_end to_end-pool_gone

main_returns_example :
    (us : List (Turn Fixed)) × ((run calm strict list_queue 7 (process one_tick) us).stage
      ≡ leaving [])
main_returns_example = main_returns calm strict list_queue 7 [] 0 refl default_track 0 one_tick

-- The weather job runs after the report.
joined-Frozen_example : Frozen (process to_report) (
    run calm strict list_queue 7
      (process to_report)
      (replicate 2 (worker_turn 0 (fixed_floats.ratio 1 10) 3)))
joined-Frozen_example =
    joined-Frozen calm strict list_queue 7 default_track [] 0 0 to_report
      (replicate 2 (worker_turn 0 (fixed_floats.ratio 1 10) 3)) (rw to_report-joined (omega arith))
