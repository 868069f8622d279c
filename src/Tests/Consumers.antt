-- ===== src/Tests/Consumers.antt =====
-- The leaderboard, the consumer of lap times and the track-limits monitor.
use formula_one_telemetry_si.Prelude.{
  suc, ◌≡◌, ◌⊎◌, refl, some, List, [], ◌∷◌, ◌++◌, true, ℕ, get_elem?,
}
use formula_one_telemetry_si.Prelude.Text.{codes}
use formula_one_telemetry_si.Floats.Fixed.{Fixed, fixed_floats, Fixed-IsOrdered}
use formula_one_telemetry_si.Types.{DriverState, RaceControlEvent, blank_state}
use formula_one_telemetry_si.Queue.{list_queue}
use formula_one_telemetry_si.Season.Lookup.{short}
use formula_one_telemetry_si.Leaderboard.{Leaderboard, empty, fastest_lap_holder, best_from}
use formula_one_telemetry_si.Leaderboard.Readers.{
  Call, attempts, last_of, attempts_single_writer, NoneBetter, HasLap, fastest_lap_holder_lem,
}
use formula_one_telemetry_si.TrackLimits.{World, check}
use formula_one_telemetry_si.TrackLimits.Reports.{Reports, check-Reports}

abbrev driver_with : ℕ → DriverState Fixed
driver_with lap = record (blank_state 0) {
  profile = record (blank_state 0).profile { id = codes "LEC" };
  best_lap_ms = fixed_floats.of_ℕ lap;
}

abbrev first : Call Fixed
first = record { tid = 4; sorted_standings = [] }

abbrev later : List (Call Fixed)
later =
    record { tid = 5; sorted_standings = driver_with 1 ∷ [] }
    ∷ record { tid = 4; sorted_standings = driver_with 2 ∷ [] }
    ∷ []

attempts_single_writer_example :
    attempts empty (first ∷ later) ≡ record { standings = last_of 4 [] later; writer_id = some 4 }
attempts_single_writer_example = attempts_single_writer first later

abbrev board : Leaderboard Fixed
board = record {
  standings = driver_with 0 ∷ driver_with 91_000 ∷ driver_with 90_000 ∷ [];
  writer_id = some 4;
}

board_holder : fastest_lap_holder board ≡ codes "LEC"
unfolding best_from
board_holder = refl

fastest_lap_holder_lem_example :
    ((fastest_lap_holder board ≡ []) × NoneBetter fixed_floats.largest board.standings)
    ⊎ ((i : ℕ) × (s : DriverState Fixed) × (get_elem? board.standings i ≡ some s)
        × (fastest_lap_holder board ≡ s.profile.id)
        × HasLap s
        × NoneBetter s.best_lap_ms board.standings)
fastest_lap_holder_lem_example = fastest_lap_holder_lem Fixed-IsOrdered board

-- Every draw is low, so every car on the track is reported.
abbrev pub strict : World Fixed ℕ
strict = record { coin = λ w. (fixed_floats.ratio 0 1, w); now = λ w. (w, suc w) }

abbrev field : List (DriverState Fixed)
field = driver_with 1 ∷ record (driver_with 2) { in_pit = true } ∷ []

check-Reports_example :
    (es : List RaceControlEvent) × ((check strict list_queue 3 field [] 0).0 ≡ [] ++ es)
    × Reports 3 field es
unfolding short
check-Reports_example = check-Reports strict list_queue 3 field [] [] 0 (refl, (refl, tt)) refl
