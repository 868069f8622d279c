-- ===== src/RaceState.antt =====
-- src/common/race_state.h: the flags that the threads share, one atomic each. A call that is one
-- load or one store is a function here; `try_claim_fastest_lap` stands in RaceState/Claim.antt.
pub mod Claim
pub mod Race
pub mod Alone
use formula_one_telemetry_si.Prelude.{ℕ, Bool, true, false, if◌then◌else◌}
use formula_one_telemetry_si.Prelude.Int.{ℤ, pos, negsuc}
use formula_one_telemetry_si.Floats.{Floats}

pub record RaceState (F : Type 0) : Type 0 where
  pub race_active : Bool
  pub current_lap : ℕ
  pub safety_car : Bool
  pub fastest_lap_holder : ℤ
  pub fastest_lap_ms : F

module _ {F : Type 0} ⦃f : Floats F⦄ where
  abbrev pub init : RaceState F
  init = record {
    race_active = false;
    current_lap = 1;
    safety_car = false;
    fastest_lap_holder = negsuc 0;
    fastest_lap_ms = f.largest;
  }

  -- A call of `try_claim_fastest_lap` with no other thread between its load and its stores.
  unfoldable pub try_claim_fastest_lap : RaceState F → ℤ → F → RaceState F × Bool
  try_claim_fastest_lap r driver_index lap_ms =
      if f.lt lap_ms r.fastest_lap_ms
      then (record r { fastest_lap_holder = driver_index; fastest_lap_ms = lap_ms }, true)
      else (r, false)

module _ {F : Type 0} where
  abbrev pub start_race : RaceState F → RaceState F
  start_race r = record r { race_active = true }

  abbrev pub end_race : RaceState F → RaceState F
  end_race r = record r { race_active = false }

  abbrev pub is_active : RaceState F → Bool
  is_active r = r.race_active

  abbrev pub set_lap : ℕ → RaceState F → RaceState F
  set_lap lap r = record r { current_lap = lap }

  abbrev pub get_lap : RaceState F → ℕ
  get_lap r = r.current_lap

  abbrev pub deploy_safety_car : RaceState F → RaceState F
  deploy_safety_car r = record r { safety_car = true }

  abbrev pub retract_safety_car : RaceState F → RaceState F
  retract_safety_car r = record r { safety_car = false }

  abbrev pub is_safety_car : RaceState F → Bool
  is_safety_car r = r.safety_car

  abbrev pub get_fastest_lap_holder : RaceState F → ℤ
  get_fastest_lap_holder r = r.fastest_lap_holder

  abbrev pub get_fastest_lap_ms : RaceState F → F
  get_fastest_lap_ms r = r.fastest_lap_ms
