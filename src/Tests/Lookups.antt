-- ===== src/Tests/Lookups.antt =====
-- The lookups of src/common/season_data.h.
use formula_one_telemetry_si.Prelude.{◌≡◌, refl}
use formula_one_telemetry_si.Prelude.Int.{pos, negsuc}
use formula_one_telemetry_si.Prelude.Text.{codes, text_eq, until_nul, memcpy}
use formula_one_telemetry_si.Floats.Fixed.{Fixed, fixed_floats}
use formula_one_telemetry_si.Types.{DriverProfile, no_id}
use formula_one_telemetry_si.Season.{driver_index_of, index_from, driver}
use formula_one_telemetry_si.Season.Lookup.{driver_index_of-until_nul}

-- The row 2 of the table.
abbrev leclerc : DriverProfile Fixed
leclerc = driver (codes "LEC") (codes "Charles Leclerc") (codes "Ferrari") (codes "31") 80 85 75 80

unknown : driver_index_of Fixed (codes "SCH") ≡ negsuc 0
unfolding driver_index_of index_from text_eq
unknown = refl

driver_index_of-until_nul_example :
    driver_index_of Fixed (until_nul (memcpy 3 leclerc.id no_id)) ≡ pos 2
driver_index_of-until_nul_example = driver_index_of-until_nul Fixed 2 leclerc refl
