-- ===== src/Program/Live.antt =====
-- The program while the race is on: callbacks of the generator and jobs of the pool, in any order, over
-- the one queue of race control. A callback, or a job, is one step. Other threads write the race state
-- at any time.
pub mod Reports
pub mod Progress
use formula_one_telemetry_si.Prelude.{
  ℕ, zero, suc, ◌≡◌, Bool, true, false, Option, none, some, List, [], ◌∷◌, ◌++◌, if◌then◌else◌,
}
use formula_one_telemetry_si.Floats.{Floats}
use formula_one_telemetry_si.Types.{DriverState, RaceControlEvent, WeatherState}
use formula_one_telemetry_si.Queue.{FifoQueue}
use formula_one_telemetry_si.Leaderboard
use formula_one_telemetry_si.RaceState
use formula_one_telemetry_si.RaceState.{RaceState}
use formula_one_telemetry_si.Penalty
use formula_one_telemetry_si.TrackLimits.{World, check, check_car}
use formula_one_telemetry_si.Weather.{WeatherSystem, update}
use formula_one_telemetry_si.Program.{
  Job, check_limits, update_weather, Entry, Flights, no_flights, Program, on_tick,
}

-- What the callback reaches, and the state of the weather and of the track-limits monitor; both push to
-- the queue that `penalty` holds.
pub record Live (F Q W : Type 0) : Type 0 where
  pub program : Program F Q
  pub weather_state : WeatherState
  pub last_update_lap : ℕ
  pub limits : W

module _ {F Q W : Type 0} where
  abbrev pub events_of : Live F Q W → Q
  events_of s = s.program.penalty.events

  abbrev pub with_events : Q → Live F Q W → Live F Q W
  with_events q s = record s {
    program = record s.program { penalty = record s.program.penalty { events = q } };
  }

  abbrev pub with_race : RaceState F → Live F Q W → Live F Q W
  with_race r s = record s { program = record s.program { race_state = r } }

module _ {F : Type 0} where
  abbrev pub entry_at : List (Entry F) → ℕ → Option (Entry F)
  entry_at [] k = none
  entry_at (e ∷ es) zero = some e
  entry_at (e ∷ es) (suc k) = entry_at es k

  -- The promise of the job `k` is kept.
  abbrev pub keep_promise : List (Entry F) → ℕ → List (Entry F)
  keep_promise [] k = []
  keep_promise (e ∷ es) zero = record e { ready = true } ∷ es
  keep_promise (e ∷ es) (suc k) = e ∷ keep_promise es k

module _ {F Q W : Type 0} where
  abbrev pub end_job : ℕ → Live F Q W → Live F Q W
  end_job k s = record s {
    program = record s.program {
      flights = record s.program.flights { jobs = keep_promise s.program.flights.jobs k };
    };
  }

module _ {F Q W : Type 0} ⦃f : Floats F⦄ (world : World F W)
    (queue : FifoQueue Q RaceControlEvent) where
  abbrev weather_of : Live F Q W → WeatherSystem Q
  weather_of s = record {
    events = events_of s;
    state = s.weather_state;
    last_update_lap = s.last_update_lap;
  }

  -- The body of a job; `coin` and `now` are the draw and the reading of the clock of a weather update.
  unfoldable pub run_job : F → ℕ → Job F → Live F Q W → Live F Q W
  run_job coin now (check_limits states_copy lap) s =
      let (q, limits) = check world queue lap states_copy (events_of s) s.limits in
      record (with_events q s) { limits = limits }
  run_job coin now (update_weather lap) s =
      let w = update queue coin now lap (weather_of s) in
      record (with_events w.events s) {
        weather_state = w.state;
        last_update_lap = w.last_update_lap;
      }

  -- The job `k` runs, unless it has.
  abbrev pub run_entry : F → ℕ → ℕ → Option (Entry F) → Live F Q W → Live F Q W
  run_entry coin now k none s = s
  run_entry coin now k (some e) s = if e.ready then s else end_job k (run_job coin now e.job s)

  -- The events of a check, one for each car that is reported.
  unfoldable pub reported : ℕ → List (DriverState F) → W → List RaceControlEvent
  reported lap [] w = []
  reported lap (s ∷ rest) w =
      let (o, w') = check_car world lap w s in
      elim o [ none ↦ reported lap rest w' | some e ↦ e ∷ reported lap rest w' ]

  abbrev pub job_reports : Job F → Live F Q W → List RaceControlEvent
  job_reports (check_limits states_copy lap) s = reported lap states_copy s.limits
  job_reports (update_weather lap) s = []

  abbrev pub entry_reports : Option (Entry F) → Live F Q W → List RaceControlEvent
  entry_reports none s = []
  entry_reports (some e) s = if e.ready then [] else job_reports e.job s

  -- The generator's thread is `tid`. The list is that of the track-limits events that the step pushes.
  pub data Step (tid : ℕ) : Live F Q W → List RaceControlEvent → Live F Q W → Type 0 where
    callback :
        {s : Live F Q W} (fuel : ℕ) (clock : ℕ → ℕ) (race_lap : ℕ) (states : List (DriverState F))
        (p : Program F Q)
        → on_tick queue fuel clock tid race_lap states s.program ≡ some p
        → Step tid s [] (record s { program = p })
    job :
        {s : Live F Q W} (k : ℕ) (coin : F) (now : ℕ)
        → Step tid s
            (entry_reports (entry_at s.program.flights.jobs k) s)
            (run_entry coin now k (entry_at s.program.flights.jobs k) s)
    race : {s : Live F Q W} (race_state : RaceState F) → Step tid s [] (with_race race_state s)

  -- What is reached, with all the track-limits events pushed on the way, oldest first.
  pub data Reachable (tid : ℕ) (first : Live F Q W)
      : List RaceControlEvent → Live F Q W → Type 0 where
    begins : Reachable tid first [] first
    goes_on :
        {s t : Live F Q W} {log es all : List RaceControlEvent}
        → Reachable tid first log s
        → Step tid s es t
        → all ≡ log ++ es
        → Reachable tid first all t

module _ {F Q W : Type 0} ⦃f : Floats F⦄ where
  -- The program as `main` builds it, over a new queue.
  abbrev pub new_live : Q → W → Live F Q W
  new_live q limits = record {
    program = record {
      leaderboard = Leaderboard.empty;
      race_state = RaceState.start_race RaceState.init;
      penalty = record { events = q; slots = Penalty.start };
      flights = no_flights;
      tick_counter = 0;
    };
    weather_state = WeatherState.dry;
    last_update_lap = 0;
    limits = limits;
  }
