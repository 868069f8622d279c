-- ===== src/Program/Console.antt =====
-- The output of src/main.cpp, and the loop of its main thread. What a round reads of the shared state
-- is a `View`; `std::cout` is the text written so far.
pub mod Rounds
use formula_one_telemetry_si.Prelude.{
  ℕ, zero, suc, ◌-◌, min, Bool, true, false, ◌&&◌, Option, none, some, List, [], ◌∷◌, ◌++◌, ◌==◌,
  ltb, length, replicate, get_elem?, if◌then◌else◌,
}
use formula_one_telemetry_si.Prelude.Int.{ℤ, pos, negsuc}
use formula_one_telemetry_si.Prelude.Text.{Text, codes, to_string}
use formula_one_telemetry_si.Floats.{Floats, ◌*ᶠ◌}
use formula_one_telemetry_si.Types.{DriverState, DriverProfile, PenaltyState, WeatherState}
use formula_one_telemetry_si.Season.{drivers}
use formula_one_telemetry_si.RaceState.{
  RaceState, get_lap, get_fastest_lap_holder, get_fastest_lap_ms,
}
use formula_one_telemetry_si.Telemetry.{total_laps}

abbrev pub weather_name : WeatherState → Text
weather_name WeatherState.dry = codes "DRY"
weather_name WeatherState.damp = codes "DAMP"
weather_name WeatherState.wet = codes "WET"

abbrev pub penalty_name : PenaltyState → Text
penalty_name PenaltyState.none = codes "-"
penalty_name PenaltyState.pending = codes "PEN"
penalty_name PenaltyState.serving = codes "SRV"
penalty_name PenaltyState.served = codes "OK"

abbrev line_end : Text
line_end = 10 ∷ []

-- `std::left << std::setw(w) << t`
abbrev pub pad : ℕ → Text → Text
pad w t = t ++ replicate (w - length t) 32

-- The line of the column names.
abbrev pub heading : Text
heading =
    pad 4 (codes "Pos")
    ++ pad 6 (codes "Drv")
    ++ pad 15 (codes "Team")
    ++ pad 9 (codes "Speed")
    ++ pad 7 (codes "Tires")
    ++ pad 7 (codes "Fuel")
    ++ pad 8 (codes "Gap")
    ++ pad 5 (codes "DRS")
    ++ pad 5 (codes "Pit")
    ++ codes "Pen"
    ++ line_end

-- `fixed n x` is what a stream in `std::fixed` with the precision `n` makes of `x`, and `status` what
-- `penalty.penalty_state` returns.
module _ {F : Type 0} ⦃f : Floats F⦄ (fixed : ℕ → F → Text) where
  abbrev pub format_gap : F → Bool → Text
  format_gap gap_seconds is_leader =
      if is_leader then codes "-" else fixed 1 gap_seconds ++ codes "s"

  -- A row of the standings.
  abbrev pub row : (Text → PenaltyState) → DriverState F → Text
  row status s =
      let frame = s.latest_frame in
      pad 4 (to_string (pos s.position))
      ++ pad 6 s.profile.id
      ++ pad 15 s.profile.team
      ++ pad 9 (to_string (f.trunc frame.speed_kph) ++ codes "kph")
      ++ pad 7 (to_string (f.trunc (frame.tire_wear *ᶠ f.of_ℕ 100)) ++ codes "%")
      ++ pad 7 (to_string (f.trunc frame.fuel_kg) ++ codes "kg")
      ++ pad 8 (format_gap frame.gap_to_leader (s.position == 1))
      ++ pad 5 (if frame.drs_active then codes "DRS" else [])
      ++ pad 5 (if frame.in_pit then codes "PIT" else [])
      ++ penalty_name (status s.profile.id)
      ++ line_end

  -- The first `n` rows.
  abbrev pub rows : (Text → PenaltyState) → ℕ → List (DriverState F) → Text
  rows status zero standings = []
  rows status (suc n) [] = []
  rows status (suc n) (s ∷ rest) = row status s ++ rows status n rest

-- What a round of the loop reads; `now` is the clock in milliseconds since its start.
pub record View (F : Type 0) : Type 0 where
  pub race_finished : Bool
  pub now : ℕ
  pub standings : List (DriverState F)
  pub lap : ℕ
  pub current : WeatherState
  pub grip_factor : F
  pub penalty_state : Text → PenaltyState

abbrev pub safety_timeout : ℕ
safety_timeout = 60_000

-- Text before what a loop writes after it.
abbrev pub prepend : Text → Option Text → Option Text
prepend t none = none
prepend t (some u) = some (t ++ u)

module _ {F : Type 0} ⦃f : Floats F⦄ (fixed : ℕ → F → Text) where
  -- What a round prints.
  unfoldable pub screen : View F → Text
  screen v =
      line_end
      ++ codes "Lap "
      ++ to_string (pos v.lap)
      ++ codes "/"
      ++ to_string (pos total_laps)
      ++ codes "   Weather: "
      ++ weather_name v.current
      ++ codes "   Grip: "
      ++ fixed 2 v.grip_factor
      ++ line_end
      ++ heading
      ++ rows fixed v.penalty_state (min 10 (length v.standings)) v.standings

  -- A round that goes to its end, before what the later rounds write.
  abbrev pub shown : View F → List (DriverState F) → Option Text → Option Text
  shown v [] rest = rest
  shown v (s ∷ ss) rest = prepend (screen v) rest

  -- The loop from the round `k`, with the clock at `race_start_time` before it; `none` is out of fuel.
  unfoldable pub rounds : (ℕ → View F) → ℕ → ℕ → ℕ → Option Text
  rounds view race_start_time zero k = none
  rounds view race_start_time (suc fuel) k =
      let rest = rounds view race_start_time fuel (suc k) in
      if (view k).race_finished
      then some []
      else if ltb safety_timeout ((view k).now - race_start_time)
      then some (line_end ++ codes "[safety timeout hit -- stopping early]" ++ line_end)
      else shown (view k) (view k).standings rest

  -- A line of the final standings.
  abbrev pub final_row : (Text → PenaltyState) → DriverState F → Text
  final_row status s =
      codes "P"
      ++ to_string (pos s.position)
      ++ codes "  "
      ++ s.profile.name
      ++ codes " ("
      ++ s.profile.team
      ++ codes ")  pit stops: "
      ++ to_string (pos s.pit_stops)
      ++ codes "  penalty: "
      ++ penalty_name (status s.profile.id)
      ++ line_end

  abbrev final_rows : (Text → PenaltyState) → List (DriverState F) → Text
  final_rows status [] = []
  final_rows status (s ∷ rest) = final_row status s ++ final_rows status rest

module _ {F : Type 0} ⦃f : Floats F⦄ where
  -- `DRIVERS[fastest_idx]`, where the test of the index allows it.
  unfoldable pub fastest_driver : RaceState F → Option (DriverProfile F)
  fastest_driver race = elim (get_fastest_lap_holder race) [
    | pos fastest_idx ↦
        if ltb fastest_idx (length (drivers {F = F}))
        then get_elem? (drivers {F = F}) fastest_idx
        else none
    | negsuc _ ↦ none
  ]

module _ {F : Type 0} ⦃f : Floats F⦄ (fixed : ℕ → F → Text) where
  -- The line of the fastest lap.
  abbrev pub fastest_line : F → Option (DriverProfile F) → Text
  fastest_line ms none = []
  fastest_line ms (some d) =
      line_end
      ++ codes "Fastest lap: "
      ++ d.name
      ++ codes " ("
      ++ d.team
      ++ codes ")  "
      ++ fixed 0 ms
      ++ codes "ms"
      ++ line_end

  -- What the main thread prints once all threads have stopped.
  unfoldable pub results : (Text → PenaltyState) → RaceState F → List (DriverState F) → Text
  results status race standings =
      line_end
      ++ replicate 78 61
      ++ line_end
      ++ codes "RACE FINISHED after "
      ++ to_string (pos (get_lap race))
      ++ codes " laps"
      ++ line_end
      ++ line_end
      ++ codes "Final standings:"
      ++ line_end
      ++ final_rows fixed status standings
      ++ fastest_line (get_fastest_lap_ms race) (fastest_driver race)
