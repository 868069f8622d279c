-- ===== src/Telemetry.antt =====
-- src/simulation/telemetry_generator.h and telemetry_generator.cpp: the race itself, a tick at a time.
-- The random engine and the clock are an interface, threaded as a world. The callback of a tick
-- stands in src/main.cpp and sees the states after the tick.
mod Cars
pub mod Positions
pub mod Runs
pub mod Pits
pub mod Bounds
pub mod Frames
pub mod Columns
pub mod Laps
unfoldable pub use Cars.*
use formula_one_telemetry_si.Prelude.{
  ℕ, zero, suc, ◌+◌, ◌-◌, Bool, true, false, ◌&&◌, ◌||◌, List, [], ◌∷◌, ◌++◌, ◌==◌, if◌then◌else◌,
  ltb, length,
}
use formula_one_telemetry_si.Prelude.Int.{ℤ, pos, ltb_ℤ, ◌+ℤ◌, ◌-ℤ◌}
use formula_one_telemetry_si.Prelude.Text.{memcpy}
use formula_one_telemetry_si.Floats.{Floats, ◌+ᶠ◌, ◌-ᶠ◌, ◌*ᶠ◌, ◌/ᶠ◌, fmin, fmax, clamp}
use formula_one_telemetry_si.Types.{
  TelemetryFrame, DriverProfile, CarProfile, TrackProfile, DriverState, blank_state, blank_frame,
  no_id, zero_f,
}
use formula_one_telemetry_si.Season.{drivers, car_for_driver}
use formula_one_telemetry_si.Spsc.{SpscQueue, init, push}
use formula_one_telemetry_si.Telemetry.Positions.{update_positions_and_drs}

-- What the generator takes from the standard library's random engine and clock, in turn.
pub record World (F W : Type 0) : Type 0 where
  pub normal : W → F × W  -- `dist_(rng_)`
  pub now : W → ℕ × W
  pub millis : ℕ → ℕ → F  -- between two readings, as a `float` of milliseconds

-- `TelemetryGenerator`, its thread and its callback apart.
pub record TelemetryGenerator (F : Type 0) : Type 0 where
  pub queue : SpscQueue (TelemetryFrame F)
  pub track : TrackProfile F
  pub states : List (DriverState F)
  pub race_lap : ℕ
  pub race_finished : Bool

abbrev pub total_laps : ℕ
total_laps = 50

abbrev pub queue_capacity : ℕ
queue_capacity = 2048

module _ {F W : Type 0} ⦃f : Floats F⦄ (world : World F W) where
  -- One car of the loop of `tick`: its new state, whether it has finished a lap, and the world after.
  unfoldable pub move_car : TrackProfile F → W → DriverState F → DriverState F × Bool × W
  move_car track w state =
      let (draw, w₁) = world.normal w in
      let driven = drive track draw state in
      let (now, w₂) = world.now w₁ in
      if state.in_pit
      then (handle_pit state, false, w)
      else if f.le track.length_km driven.distance_in_lap
      then (finish_lap track now (world.millis state.lap_start now) driven, true, w₂)
      else (driven, false, w₁)

  -- The lap counter and the end of the race, after a lap of the car.
  abbrev pub count_lap : DriverState F → ℕ × Bool → ℕ × Bool
  count_lap state (race_lap, race_finished) =
      let lap = state.latest_frame.lap in
      (
        if ltb race_lap lap then lap else race_lap,
        if ltb total_laps lap && (state.position == 1) then true else race_finished,
      )

  -- The loop over the cars. A frame that finds the queue full is dropped.
  unfoldable pub move_cars :
      List (DriverState F)
      → TelemetryGenerator F
      → W
      → List (DriverState F) × TelemetryGenerator F × W
  move_cars [] g w = ([], g, w)
  move_cars (state ∷ rest) g w =
      let (state', finished, w') = move_car g.track w state in
      let (race_lap, race_finished) =
        if finished
        then count_lap state' (g.race_lap, g.race_finished)
        else (g.race_lap, g.race_finished) in
      let (queue, _) = push queue_capacity g.queue state'.latest_frame in
      let g' = record g { queue = queue; race_lap = race_lap; race_finished = race_finished } in
      let (moved, last, end) = move_cars rest g' w' in (state' ∷ moved, last, end)

  -- `tick`, up to its callback, which gets the states.
  unfoldable pub tick : TelemetryGenerator F → W → TelemetryGenerator F × W
  tick g w =
      let (moved, g', w') = move_cars g.states g w in
      (record g' { states = update_positions_and_drs g.track moved }, w')

  -- The loop of the constructor, from the car `i` of `n`.
  unfoldable pub grid : ℕ → ℕ → List (DriverProfile F) → W → List (DriverState F) × W
  grid n i [] w = ([], w)
  grid n i (profile ∷ rest) w =
      let (created, w₁) = world.now w in
      let (lap_start, w₂) = world.now w₁ in
      let blank = blank_state created in
      let (states, w₃) = grid n (suc i) rest w₂ in
      (
        record blank {
          profile = profile;
          car = car_for_driver profile;
          position = i + 1;
          distance_in_lap = f.of_ℕ (n - i - 1) *ᶠ f.ratio 10 1000;
          latest_frame = record blank.latest_frame {
            driver_id = memcpy 3 profile.id blank.latest_frame.driver_id;
            lap = 1;
            fuel_kg = f.ratio 100 1;
          };
          lap_start = lap_start;
        }
            ∷ states,
        w₃,
      )

  -- The constructor, over a new queue.
  abbrev pub new_generator : TrackProfile F → W → TelemetryGenerator F × W
  new_generator track w =
      let (states, w') = grid (length (drivers {F = F})) 0 drivers w in
      (
        record {
          queue = init queue_capacity blank_frame;
          track = track;
          states = states;
          race_lap = 1;
          race_finished = false;
        },
        w',
      )

  -- The rounds of `run`: `asked k` is whether a stop has been requested before the round `k`.
  unfoldable pub ticks : (ℕ → Bool) → ℕ → ℕ → TelemetryGenerator F → W → TelemetryGenerator F × W
  ticks asked k zero g w = (g, w)
  ticks asked k (suc n) g w =
      let (g', w') = tick g w in
      if asked k || g.race_finished then (g, w) else ticks asked (suc k) n g' w'
