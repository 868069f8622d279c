-- ===== src/Telemetry/Cars.antt =====
-- src/simulation/telemetry_generator.cpp, one car: its pit stop, its drive and the end of a lap.
use formula_one_telemetry_si.Prelude.{ℕ, suc, Bool, true, false, ◌||◌, if◌then◌else◌, ltb}
use formula_one_telemetry_si.Prelude.Int.{ℤ, pos, ltb_ℤ, ◌+ℤ◌, ◌-ℤ◌}
use formula_one_telemetry_si.Floats.{Floats, ◌+ᶠ◌, ◌-ᶠ◌, ◌*ᶠ◌, ◌/ᶠ◌, fmin, fmax, clamp}
use formula_one_telemetry_si.Types.{CarProfile, TrackProfile, DriverState, zero_f}

abbrev pub pit_stop_ticks : ℕ
pit_stop_ticks = 11

-- `std::min` on two `int`s.
abbrev pub min_ℤ : ℤ → ℤ → ℤ
min_ℤ a b = if ltb_ℤ b a then b else a

module _ {F : Type 0} ⦃f : Floats F⦄ where
  abbrev pub sim_s_per_tick : F
  sim_s_per_tick = f.ratio 120 1 *ᶠ f.ratio 2 100

  abbrev pub tire_wear_base : F
  tire_wear_base = f.ratio 130 100_000

  abbrev pub max_speed : CarProfile F → F
  max_speed car = f.ratio 280 1 +ᶠ car.engine_power *ᶠ f.ratio 90 1

  -- A tick in the pit lane, with `timer` ticks to go.
  abbrev pub stand : ℤ → DriverState F → DriverState F
  stand timer state = record state {
    pit_timer_ticks = timer;
    latest_frame = record state.latest_frame {
      in_pit = true;
      speed_kph = f.ratio 60 1;
      throttle = f.ratio 2 10;
      brake = f.ratio 1 10;
      lap_time_ms = zero_f;
    };
  }

  -- The end of a stop: fresh tires and fuel.
  abbrev pub leave_pit : DriverState F → DriverState F
  leave_pit state = record state {
    in_pit = false;
    latest_frame = record state.latest_frame {
      in_pit = false;
      tire_wear = f.ratio 2 100;
      fuel_kg = f.ratio 100 1;
    };
    pit_stops = suc state.pit_stops;
  }

  unfoldable pub handle_pit : DriverState F → DriverState F
  handle_pit state =
      let timer = state.pit_timer_ticks -ℤ pos 1 in
      let s = stand timer state in if ltb_ℤ (pos 0) timer then s else leave_pit s

  unfoldable pub should_pit : DriverState F → Bool
  should_pit state =
      if state.has_completed_pit
      then false
      else if ltb state.latest_frame.lap 5
      then false
      else f.le (f.ratio 60 100 +ᶠ state.profile.tire_mgmt *ᶠ f.ratio 25 100)
          state.latest_frame.tire_wear

  -- The speed of a car on the track, for a draw of the generator.
  abbrev pub speed : DriverState F → F → F
  speed state draw =
      let frame = state.latest_frame in
      let fuel_factor = f.ratio 1 1 -ᶠ (frame.fuel_kg /ᶠ f.ratio 100 1) *ᶠ f.ratio 8 100 in
      let tire_factor = f.ratio 1 1 -ᶠ frame.tire_wear *ᶠ f.ratio 25 100 in
      let variation = draw *ᶠ (f.ratio 1 1 -ᶠ state.profile.consistency) *ᶠ f.ratio 8 1 in
      let drs = if frame.drs_active then f.ratio 12 1 else zero_f in
      clamp (max_speed state.car *ᶠ fuel_factor *ᶠ tire_factor +ᶠ variation +ᶠ drs) (f.ratio 80 1)
        (f.ratio 370 1)

  abbrev pub brake_at : F → F
  brake_at v =
      if f.lt v (f.ratio 150 1)
      then clamp ((f.ratio 150 1 -ᶠ v) /ᶠ f.ratio 150 1) zero_f (f.ratio 1 1)
      else zero_f

  -- The sector of a distance in the lap.
  unfoldable pub sector_at : TrackProfile F → F → ℤ
  sector_at track distance =
      let sector_len = track.length_km /ᶠ f.ratio 3 1 in
      min_ℤ (pos 3) (f.trunc (distance /ᶠ sector_len) +ℤ pos 1)

  -- A car on the track, up to the test for the end of the lap: speed, pedals, distance, sector, wear
  -- and fuel.
  unfoldable pub drive : TrackProfile F → F → DriverState F → DriverState F
  drive track draw state =
      let frame = state.latest_frame in
      let v = speed state draw in
      let dist_km = v /ᶠ f.ratio 3600 1 *ᶠ sim_s_per_tick in
      let distance = state.distance_in_lap +ᶠ dist_km in
      let wear =
        tire_wear_base
        *ᶠ state.profile.aggression
        *ᶠ track.tire_deg_factor
        *ᶠ (v /ᶠ f.ratio 280 1) in
      let fuel_burn = track.fuel_consumption *ᶠ dist_km in
      record state {
        distance_in_lap = distance;
        latest_frame = record frame {
          lap_time_ms = zero_f;
          speed_kph = v;
          throttle = fmin (f.ratio 1 1) (v /ᶠ f.ratio 310 1);
          brake = brake_at v;
          sector = sector_at track distance;
          tire_wear = fmin (f.ratio 1 1) (frame.tire_wear +ᶠ wear);
          fuel_kg = fmax zero_f (frame.fuel_kg -ᶠ fuel_burn);
        };
      }

  abbrev pub enter_pit : DriverState F → DriverState F
  enter_pit state = record state {
    in_pit = true;
    pit_timer_ticks = pos pit_stop_ticks;
    has_completed_pit = true;
    latest_frame = record state.latest_frame { in_pit = true };
  }

  -- The end of a lap, with the lap's time: the best lap and the pit decision.
  unfoldable pub finish_lap : TrackProfile F → ℕ → F → DriverState F → DriverState F
  finish_lap track now lap_ms state =
      let best =
        if f.lt state.best_lap_ms (f.ratio 1 1) || f.lt lap_ms state.best_lap_ms
        then lap_ms
        else state.best_lap_ms in
      let s = record state {
        distance_in_lap = state.distance_in_lap -ᶠ track.length_km;
        latest_frame = record state.latest_frame {
          lap = suc state.latest_frame.lap;
          lap_time_ms = lap_ms;
        };
        lap_start = now;
        best_lap_ms = best;
      } in
      if should_pit s then enter_pit s else s
