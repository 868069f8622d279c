-- ===== src/Types.antt =====
-- src/common/types.h: the records and enumerations that the components share. `F` is the type that
-- stands for `float`; a time point of the steady clock is a number.
use formula_one_telemetry_si.Prelude.{ℕ, Bool, true, false, [], ◌∷◌}
use formula_one_telemetry_si.Prelude.Int.{ℤ, pos}
use formula_one_telemetry_si.Prelude.Text.{Text}
use formula_one_telemetry_si.Floats.{Floats}

pub record TelemetryFrame (F : Type 0) : Type 0 where
  pub driver_id : Text
  pub lap : ℕ
  pub sector : ℤ
  pub speed_kph : F
  pub throttle : F
  pub brake : F
  pub tire_wear : F
  pub fuel_kg : F
  pub drs_active : Bool
  pub in_pit : Bool
  pub gap_to_leader : F
  pub lap_time_ms : F

pub record DriverProfile (F : Type 0) : Type 0 where
  pub id : Text
  pub name : Text
  pub team : Text
  pub color : Text
  pub aggression : F
  pub consistency : F
  pub tire_mgmt : F
  pub risk_tolerance : F

pub record CarProfile (F : Type 0) : Type 0 where
  pub team : Text
  pub engine_power : F
  pub aero_efficiency : F
  pub cooling : F
  pub reliability : F

pub record TrackProfile (F : Type 0) : Type 0 where
  pub name : Text
  pub length_km : F
  pub sectors : ℕ
  pub tire_deg_factor : F
  pub fuel_consumption : F

pub data PenaltyState : Type 0 where
  none pending serving served : PenaltyState

pub data WeatherState : Type 0 where
  dry damp wet : WeatherState

pub data EventType : Type 0 where
  track_limits penalty_issued pit_entry pit_exit : EventType
  weather_change safety_car fastest_lap radio_message : EventType

pub record RaceControlEvent : Type 0 where
  pub type : EventType
  pub driver_id : Text
  pub lap : ℕ
  pub message : Text
  pub timestamp : ℕ

pub record DriverState (F : Type 0) : Type 0 where
  pub profile : DriverProfile F
  pub car : CarProfile F
  pub latest_frame : TelemetryFrame F
  pub penalty_state : PenaltyState
  pub penalty_warnings : ℕ
  pub position : ℕ
  pub pit_stops : ℕ
  pub best_lap_ms : F
  pub distance_in_lap : F
  pub in_pit : Bool
  pub pit_timer_ticks : ℤ
  pub has_completed_pit : Bool
  pub lap_start : ℕ

-- A `char[4]` of zeros.
abbrev pub no_id : Text
no_id = 0 ∷ 0 ∷ 0 ∷ 0 ∷ []

module _ {F : Type 0} ⦃f : Floats F⦄ where
  abbrev pub zero_f : F
  zero_f = f.ratio 0 1

  -- `TelemetryFrame{}`
  abbrev pub blank_frame : TelemetryFrame F
  blank_frame = record {
    driver_id = no_id;
    lap = 0;
    sector = pos 1;
    speed_kph = zero_f;
    throttle = zero_f;
    brake = zero_f;
    tire_wear = zero_f;
    fuel_kg = f.ratio 100 1;
    drs_active = false;
    in_pit = false;
    gap_to_leader = zero_f;
    lap_time_ms = zero_f;
  }

  -- `DriverState{}` at the time `now`: the profiles have no initialisers, so value-initialisation
  -- makes their numbers 0 and their texts empty.
  abbrev pub blank_state : ℕ → DriverState F
  blank_state now = record {
    profile = record {
      id = [];
      name = [];
      team = [];
      color = [];
      aggression = zero_f;
      consistency = zero_f;
      tire_mgmt = zero_f;
      risk_tolerance = zero_f;
    };
    car = record {
      team = [];
      engine_power = zero_f;
      aero_efficiency = zero_f;
      cooling = zero_f;
      reliability = zero_f;
    };
    latest_frame = blank_frame;
    penalty_state = PenaltyState.none;
    penalty_warnings = 0;
    position = 0;
    pit_stops = 0;
    best_lap_ms = zero_f;
    distance_in_lap = zero_f;
    in_pit = false;
    pit_timer_ticks = pos 0;
    has_completed_pit = false;
    lap_start = now;
  }

-- The comparison of an atomic's compare-and-exchange.
unfoldable pub same_state : PenaltyState → PenaltyState → Bool
same_state PenaltyState.none PenaltyState.none = true
same_state PenaltyState.pending PenaltyState.pending = true
same_state PenaltyState.serving PenaltyState.serving = true
same_state PenaltyState.served PenaltyState.served = true
same_state _ _ = false
