-- ===== src/Tests/Lives.antt =====
-- The program over the linked queue of src/concurrency/mpsc_queue.h.
use formula_one_telemetry_si.Prelude.{◌++◌, ℕ, zero, suc, ◌≡◌, refl, some, List, [], ◌∷◌, All}
use formula_one_telemetry_si.Prelude.Text.{codes}
use formula_one_telemetry_si.Floats.Fixed.{Fixed, fixed_floats}
use formula_one_telemetry_si.Types.{
  DriverState, RaceControlEvent, EventType, no_id, blank_state, blank_frame,
}
use formula_one_telemetry_si.Leaderboard.{Leaderboard, update}
use formula_one_telemetry_si.Penalty
use formula_one_telemetry_si.Penalty.{process_events}
use formula_one_telemetry_si.Penalty.Machine.{Action}
use formula_one_telemetry_si.Penalty.History
use formula_one_telemetry_si.Queue.{FifoQueue, drain}
use formula_one_telemetry_si.Mpsc.{System, start, consume, examine}
use formula_one_telemetry_si.Mpsc.Nodes.{lookup}
use formula_one_telemetry_si.Mpsc.Calls.{Holds, pop}
use formula_one_telemetry_si.Mpsc.Calls.Pops.{mpsc_queue}
use formula_one_telemetry_si.Mpsc.Keeps.Turns.{start-Inv}
use formula_one_telemetry_si.TrackLimits.{check_car, limits_event}
use formula_one_telemetry_si.Program.{
  Program, on_tick, after_tick, start_jobs, start_check, start_weather, sorted_by_position,
}
use formula_one_telemetry_si.Program.Live.{
  events_of, entry_reports, Live, Step, Reachable, new_live, run_entry, entry_at, reported,
}
use formula_one_telemetry_si.Program.Live.Reports.{limits_of, events_in, IsEvent}
use formula_one_telemetry_si.Program.Live.Progress.{callback_returns}
use formula_one_telemetry_si.Tests.Nodes.{above, above_free}
use formula_one_telemetry_si.Tests.Consumers.{strict}

abbrev blank : RaceControlEvent
blank = record {
  type = EventType.radio_message;
  driver_id = no_id;
  lap = 0;
  message = [];
  timestamp = 0;
}

-- The thread 1 pushes. A move leaves an event as it is here.
abbrev queue : FifoQueue (System RaceControlEvent) RaceControlEvent
queue = mpsc_queue (λ e. e) above above_free 1

empty-Holds : Holds (start blank 0) []
empty-Holds = record {
  inv = start-Inv blank 0;
  producers_outside = λ i. refl;
  consumer_outside = refl;
  waiting = refl;
}

abbrev new : Live Fixed (System RaceControlEvent) ℕ
new = new_live (start blank 0) 0

-- A car that goes off, and one that stands.
abbrev off_track : DriverState Fixed
off_track = record (blank_state 0) {
  position = 2;
  profile = record (blank_state 0).profile {
    id = codes "LEC";
    aggression = fixed_floats.ratio 85 100;
  };
  latest_frame = record blank_frame { speed_kph = fixed_floats.ratio 280 1 };
}

abbrev cars : List (DriverState Fixed)
cars = off_track ∷ record (blank_state 0) { position = 1 } ∷ []

abbrev board : Leaderboard Fixed
board = record { standings = sorted_by_position cars; writer_id = some 7 }

-- Callbacks at lap 6 with an empty queue. The first starts a weather job, the ninth a check.
abbrev next : Live Fixed (System RaceControlEvent) ℕ → Live Fixed (System RaceControlEvent) ℕ
next s = record s { program = after_tick 6 cars board new.program.penalty s.program }

abbrev ticks : ℕ → Live Fixed (System RaceControlEvent) ℕ
ticks zero = new
ticks (suc n) = next (ticks n)

ticks-done :
    (n : ℕ) → on_tick queue 1 (λ k. k) 7 6 cars (ticks n).program ≡ some (next (ticks n)).program
unfolding on_tick process_events drain pop consume examine lookup update
ticks-done zero = refl
ticks-done (suc n) = refl

ticks-Reachable : (n : ℕ) → Reachable strict queue 7 new [] (ticks n)
ticks-Reachable zero = Reachable.begins
ticks-Reachable (suc n) =
    Reachable.goes_on (ticks-Reachable n)
      (Step.callback 1 (λ k. k) 6 cars (next (ticks n)).program (ticks-done n)) refl

abbrev checked : Live Fixed (System RaceControlEvent) ℕ
checked =
    run_entry strict queue (fixed_floats.ratio 1 10) 3 1 (entry_at (ticks 9).program.flights.jobs 1)
      (ticks 9)

abbrev log : List RaceControlEvent
log = entry_reports strict queue (entry_at (ticks 9).program.flights.jobs 1) (ticks 9)

checked-Reachable : Reachable strict queue 7 new log checked
checked-Reachable =
    Reachable.goes_on (ticks-Reachable 9) (Step.job 1 (fixed_floats.ratio 1 10) 3) refl

-- The check reports the first car, whose event waits in the queue.
log-one : limits_of log ≡ limits_event 1 6 off_track ∷ []
unfolding start_jobs start_weather start_check reported check_car limits_of
log-one = refl

callback_returns_example :
    ((fuel : ℕ) × (p : Program Fixed (System RaceControlEvent)) × (on_tick queue fuel
          (λ k. k)
          7
          7
          cars
          checked.program
        ≡ some p)
      × (p.leaderboard.standings ≡ sorted_by_position cars))
    × ((acts : List Action) × (waiting : List RaceControlEvent) × (checked.program.penalty.slots
          ≡ (History.run Fixed Penalty.start acts).0)
        × All IsEvent acts
        × Holds (events_of checked) waiting
        × (limits_of (events_in acts ++ waiting) ≡ limits_of log))
callback_returns_example =
    callback_returns strict queue 7 (start blank 0) 0 checked log (λ k. k) 7 cars empty-Holds
      checked-Reachable
