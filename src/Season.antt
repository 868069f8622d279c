-- ===== src/Season.antt =====
-- src/common/season_data.h: the tables of drivers and cars, the track, and their two lookups.
pub mod Lookup
use formula_one_telemetry_si.Prelude.{ℕ, suc, List, [], ◌∷◌, ◌++◌, if◌then◌else◌, Bool}
use formula_one_telemetry_si.Prelude.Int.{ℤ, pos, negsuc}
use formula_one_telemetry_si.Prelude.Text.{Text, codes, text_eq}
use formula_one_telemetry_si.Floats.{Floats}
use formula_one_telemetry_si.Types.{DriverProfile, CarProfile, TrackProfile}

-- `"\033[" ++ n ++ "m"`
abbrev ansi : Text → Text
ansi n = 27 ∷ codes "[" ++ n ++ codes "m"

module _ {F : Type 0} ⦃f : Floats F⦄ where
  -- A row of the first table, the four numbers in hundredths.
  abbrev pub driver : Text → Text → Text → Text → ℕ → ℕ → ℕ → ℕ → DriverProfile F
  driver id name team color aggression consistency tire_mgmt risk = record {
    id = id;
    name = name;
    team = team;
    color = ansi color;
    aggression = f.ratio aggression 100;
    consistency = f.ratio consistency 100;
    tire_mgmt = f.ratio tire_mgmt 100;
    risk_tolerance = f.ratio risk 100;
  }

  abbrev car : Text → ℕ → ℕ → ℕ → ℕ → CarProfile F
  car team engine aero cooling reliability = record {
    team = team;
    engine_power = f.ratio engine 100;
    aero_efficiency = f.ratio aero 100;
    cooling = f.ratio cooling 100;
    reliability = f.ratio reliability 100;
  }

  abbrev pub drivers : List (DriverProfile F)
  drivers =
      driver (codes "VER") (codes "Max Verstappen") (codes "Red Bull") (codes "34") 85 95 80 70
      ∷ driver (codes "TSU") (codes "Yuki Tsunoda") (codes "Red Bull") (codes "34") 75 75 65 70
      ∷ driver (codes "LEC") (codes "Charles Leclerc") (codes "Ferrari") (codes "31") 80 85 75 80
      ∷ driver (codes "HAM") (codes "Lewis Hamilton") (codes "Ferrari") (codes "31") 70 92 90 55
      ∷ driver (codes "NOR") (codes "Lando Norris") (codes "McLaren") (codes "33") 78 88 72 72
      ∷ driver (codes "PIA") (codes "Oscar Piastri") (codes "McLaren") (codes "33") 65 85 80 60
      ∷ driver (codes "RUS") (codes "George Russell") (codes "Mercedes") (codes "37") 72 90 82 65
      ∷ driver (codes "ANT") (codes "Kimi Antonelli") (codes "Mercedes") (codes "37") 80 65 60 75
      ∷ driver (codes "ALO") (codes "Fernando Alonso") (codes "Aston Martin") (codes "32") 75 93 92
          68
      ∷ driver (codes "STR") (codes "Lance Stroll") (codes "Aston Martin") (codes "32") 60 70 68 55
      ∷ driver (codes "GAS") (codes "Pierre Gasly") (codes "Alpine") (codes "35") 70 78 70 65
      ∷ driver (codes "DOO") (codes "Jack Doohan") (codes "Alpine") (codes "35") 72 62 58 70
      ∷ driver (codes "ALB") (codes "Alex Albon") (codes "Williams") (codes "36") 68 82 78 62
      ∷ driver (codes "SAI") (codes "Carlos Sainz") (codes "Williams") (codes "36") 75 88 85 67
      ∷ driver (codes "HUL") (codes "Nico Hulkenberg") (codes "Haas") (codes "91") 72 80 72 65
      ∷ driver (codes "OCO") (codes "Esteban Ocon") (codes "Haas") (codes "91") 68 75 70 62
      ∷ driver (codes "LAW") (codes "Liam Lawson") (codes "RB") (codes "94") 76 72 65 73
      ∷ driver (codes "HAD") (codes "Isack Hadjar") (codes "RB") (codes "94") 74 65 60 70
      ∷ driver (codes "BOT") (codes "Valtteri Bottas") (codes "Sauber") (codes "90") 65 82 80 55
      ∷ driver (codes "BEA") (codes "Oliver Bearman") (codes "Sauber") (codes "90") 73 68 62 72
      ∷ []

  -- The last row of the table of cars.
  abbrev pub last_car : CarProfile F
  last_car = car (codes "Sauber") 78 77 76 79

  abbrev pub cars : List (CarProfile F)
  cars =
      car (codes "Red Bull") 97 95 90 92
      ∷ car (codes "Ferrari") 96 94 88 90
      ∷ car (codes "McLaren") 95 96 87 91
      ∷ car (codes "Mercedes") 93 92 89 93
      ∷ car (codes "Aston Martin") 88 87 85 88
      ∷ car (codes "Alpine") 83 82 80 84
      ∷ car (codes "Williams") 82 81 79 83
      ∷ car (codes "Haas") 80 79 78 81
      ∷ car (codes "RB") 84 83 81 85
      ∷ last_car
      ∷ []

  abbrev pub default_track : TrackProfile F
  default_track = record {
    name = codes "Circuit de Wall";
    length_km = f.ratio 54 10;
    sectors = 3;
    tire_deg_factor = f.ratio 10 10;
    fuel_consumption = f.ratio 23 10;
  }

  -- The first car of the team, or the last row.
  unfoldable pub car_of_team : Text → List (CarProfile F) → CarProfile F
  car_of_team team [] = last_car
  car_of_team team (c ∷ cs) = if text_eq c.team team then c else car_of_team team cs

  unfoldable pub car_for_driver : DriverProfile F → CarProfile F
  unfolding car_of_team
  car_for_driver d = car_of_team d.team cars

  -- The loop of `driver_index_of`, at the index `i`.
  unfoldable pub index_from : ℕ → List (DriverProfile F) → Text → ℤ
  index_from i [] id = negsuc 0
  index_from i (d ∷ ds) id = if text_eq d.id id then pos i else index_from (suc i) ds id

module _ (F : Type 0) ⦃f : Floats F⦄ where
  -- The index of a driver in `drivers`, or -1.
  unfoldable pub driver_index_of : Text → ℤ
  driver_index_of id = index_from 0 (drivers {F = F}) id
