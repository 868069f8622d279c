-- ===== src/Weather.antt =====
-- src/race_control/weather.h and weather.cpp: the track's weather and the events that announce it.
-- The draw of the random generator and the reading of the clock are arguments, and so is the lap,
-- which is never negative.
pub mod Changes
use formula_one_telemetry_si.Prelude.{ℕ, ◌+◌, ◌++◌, Bool, ltb, if◌then◌else◌}
use formula_one_telemetry_si.Prelude.Text.{Text, codes}
use formula_one_telemetry_si.Floats.{Floats}
use formula_one_telemetry_si.Types.{WeatherState, EventType, RaceControlEvent, no_id}
use formula_one_telemetry_si.Queue.{FifoQueue}

pub record WeatherSystem (Q : Type 0) : Type 0 where
  pub events : Q
  pub state : WeatherState
  pub last_update_lap : ℕ

abbrev pub init : {Q : Type 0} → Q → WeatherSystem Q
init q = record { events = q; state = WeatherState.dry; last_update_lap = 0 }

-- The transition of `update`.
abbrev pub next_state : WeatherState → WeatherState
next_state WeatherState.dry = WeatherState.damp
next_state WeatherState.damp = WeatherState.wet
next_state WeatherState.wet = WeatherState.dry

-- The table `names`.
abbrev pub name : WeatherState → Text
name WeatherState.dry = codes "DRY"
name WeatherState.damp = codes "DAMP"
name WeatherState.wet = codes "WET"

abbrev pub weather_event : ℕ → ℕ → WeatherState → RaceControlEvent
weather_event now lap new_state = record {
  type = EventType.weather_change;
  driver_id = no_id;
  lap = lap;
  message = codes "Weather: " ++ name new_state;
  timestamp = now;
}

-- The two stores and the push of a change.
module _ {Q : Type 0} (queue : FifoQueue Q RaceControlEvent) where
  abbrev pub change : ℕ → ℕ → WeatherSystem Q → WeatherSystem Q
  change now lap w = record w {
    events = queue.push w.events (weather_event now lap (next_state w.state));
    state = next_state w.state;
  }

-- `coin_(rng_) > CHANGE_PROBABILITY`
abbrev pub no_change : {F : Type 0} ⦃f : Floats F⦄ → F → Bool
no_change ⦃f⦄ coin = f.lt (f.ratio 15 100) coin

module _ {F : Type 0} ⦃f : Floats F⦄ {Q : Type 0} (queue : FifoQueue Q RaceControlEvent) where
  -- `current_lap - last_update_lap_ < 5` is written without the subtraction.
  unfoldable pub update : F → ℕ → ℕ → WeatherSystem Q → WeatherSystem Q
  update coin now lap w =
      let w' = record w { last_update_lap = lap } in
      if ltb lap (w.last_update_lap + 5)
      then w
      else (if no_change coin then w' else change queue now lap w')

unfoldable pub current : {Q : Type 0} → WeatherSystem Q → WeatherState
current w = w.state

module _ {F : Type 0} ⦃f : Floats F⦄ where
  abbrev pub grip_of : WeatherState → F
  grip_of WeatherState.dry = f.ratio 100 100
  grip_of WeatherState.damp = f.ratio 85 100
  grip_of WeatherState.wet = f.ratio 70 100

  unfoldable pub grip_factor : {Q : Type 0} → WeatherSystem Q → F
  grip_factor w = grip_of w.state
