-- ===== src/Program.antt =====
-- The callback of a tick in src/main.cpp: it publishes the standings, starts the two periodic jobs on
-- the pool unless their last run is still going, and empties the queue of race control. A future is
-- the number of its job; the pool ends a job at any time.
pub mod Exclusive
pub mod Ticks
pub mod Console
pub mod Fastest
pub mod Published
pub mod Live
pub mod Process
use formula_one_telemetry_si.Prelude.{
  ℕ, zero, suc, ◌%◌, Bool, true, false, ◌&&◌, Option, none, some, List, [], ◌∷◌, ◌++◌, ◌==◌, ltb,
  length, if◌then◌else◌,
}
use formula_one_telemetry_si.Floats.{Floats}
use formula_one_telemetry_si.Types.{DriverState, RaceControlEvent}
use formula_one_telemetry_si.Queue.{FifoQueue}
use formula_one_telemetry_si.RaceState.{RaceState, set_lap}
use formula_one_telemetry_si.Leaderboard.{Leaderboard, update}
use formula_one_telemetry_si.Penalty.{PenaltyEnforcer, process_events}
use formula_one_telemetry_si.Telemetry.Positions.Sort.{stable_sort}

-- `track_limits.check(states_copy, lap)` and `weather.update(lap)`.
pub data Job (F : Type 0) : Type 0 where
  check_limits : (states_copy : List (DriverState F)) (lap : ℕ) → Job F
  update_weather : (lap : ℕ) → Job F

-- A job of the pool, and whether its future is ready.
pub record Entry (F : Type 0) : Type 0 where
  pub job : Job F
  pub ready : Bool

-- The jobs submitted so far, oldest first, and the two futures; `none` is a future that is not valid.
pub record Flights (F : Type 0) : Type 0 where
  pub jobs : List (Entry F)
  pub track_limits_future : Option ℕ
  pub weather_future : Option ℕ

module _ {F : Type 0} where
  abbrev pub no_flights : Flights F
  no_flights = record { jobs = []; track_limits_future = none; weather_future = none }

  abbrev pub ready_at : List (Entry F) → ℕ → Bool
  ready_at [] k = false
  ready_at (e ∷ es) zero = e.ready
  ready_at (e ∷ es) (suc k) = ready_at es k

  -- `!future.valid() || future.wait_for(0s) == ready`
  abbrev pub is_idle : List (Entry F) → Option ℕ → Bool
  is_idle jobs none = true
  is_idle jobs (some k) = ready_at jobs k

  abbrev pub submit : List (Entry F) → Job F → List (Entry F)
  submit jobs job = jobs ++ record { job = job; ready = false } ∷ []

  unfoldable pub start_check : ℕ → List (DriverState F) → Flights F → Flights F
  start_check lap states s =
      if is_idle s.jobs s.track_limits_future
      then record s {
        jobs = submit s.jobs (check_limits states lap);
        track_limits_future = some (length s.jobs);
      }
      else s

  unfoldable pub start_weather : ℕ → Flights F → Flights F
  start_weather lap s =
      if is_idle s.jobs s.weather_future
      then record s {
        jobs = submit s.jobs (update_weather lap);
        weather_future = some (length s.jobs);
      }
      else s

  -- The two starts of a tick, with the counter as it stands after its increment.
  unfoldable pub start_jobs : ℕ → ℕ → List (DriverState F) → Flights F → Flights F
  start_jobs tick_counter lap states s =
      start_weather lap (if tick_counter % 9 == 0 then start_check lap states s else s)

  -- `std::sort` by position; no two states have the same.
  abbrev pub sorted_by_position : List (DriverState F) → List (DriverState F)
  sorted_by_position states = stable_sort (λ a b. ltb a.position b.position) states

-- What the callback reaches.
pub record Program (F Q : Type 0) : Type 0 where
  pub leaderboard : Leaderboard F
  pub race_state : RaceState F
  pub penalty : PenaltyEnforcer Q
  pub flights : Flights F
  pub tick_counter : ℕ

module _ {F Q : Type 0} where
  -- The program after a callback that has come to its end.
  abbrev pub after_tick :
      ℕ → List (DriverState F) → Leaderboard F → PenaltyEnforcer Q → Program F Q → Program F Q
  after_tick race_lap states board penalty p = record {
    leaderboard = board;
    race_state = set_lap race_lap p.race_state;
    penalty = penalty;
    flights = start_jobs (suc p.tick_counter) race_lap states p.flights;
    tick_counter = suc p.tick_counter;
  }

module _ {F : Type 0} ⦃f : Floats F⦄ {Q : Type 0} (queue : FifoQueue Q RaceControlEvent) where
  -- The callback, on the generator's thread `tid`; `none` is an exception, or `fuel` run out.
  unfoldable pub on_tick :
      ℕ → (ℕ → ℕ) → ℕ → ℕ → List (DriverState F) → Program F Q → Option (Program F Q)
  on_tick fuel clock tid race_lap states p =
      elim (update p.leaderboard tid (sorted_by_position states)) [
        | none ↦ none
        | some board ↦ elim (process_events F queue fuel clock p.penalty) [
          | none ↦ none
          | some penalty ↦ some (after_tick race_lap states board penalty p)
        ]
      ]
