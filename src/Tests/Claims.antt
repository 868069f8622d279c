-- ===== src/Tests/Claims.antt =====
-- Claims of the fastest lap (src/common/race_state.h) and the weather (src/race_control/weather.cpp).
use formula_one_telemetry_si.Prelude.{ℕ, ◌≡◌, refl, List, [], ◌∷◌, ◌++◌, All, true, false, length}
use formula_one_telemetry_si.Prelude.Int.{pos}
use formula_one_telemetry_si.Floats.Fixed.{Fixed, fixed_floats, Fixed-IsOrdered}
use formula_one_telemetry_si.Types.{RaceControlEvent, WeatherState}
use formula_one_telemetry_si.Queue.{list_queue}
use formula_one_telemetry_si.Weather.{WeatherSystem, update}
use formula_one_telemetry_si.Weather
use formula_one_telemetry_si.Weather.Changes.{Call, Announces, changes, updates, updates-Announces}
use formula_one_telemetry_si.RaceState.{init, try_claim_fastest_lap}
use formula_one_telemetry_si.RaceState.Alone.{rounds, run_alone}
use formula_one_telemetry_si.RaceState.Claim.{
  System, Turn, call, go_on, run, start, outside, begin, advance,
}
use formula_one_telemetry_si.RaceState.Race.{
  newest, Falling, run-fastest, crossing, holder_mismatch,
}

abbrev seconds : ℕ → Fixed
seconds n = fixed_floats.of_ℕ n

-- Driver 4 sets 90 s; driver 0 then misses once for no reason, and sets 89 s.
abbrev turns : List (Turn Fixed)
turns =
    call 0 (pos 4) (seconds 90)
    ∷ go_on 0 false
    ∷ go_on 0 false
    ∷ call 1 (pos 0) (seconds 89)
    ∷ go_on 1 true
    ∷ go_on 1 false
    ∷ go_on 1 false
    ∷ call 0 (pos 4) (seconds 91)
    ∷ []

abbrev final : System Fixed
final = run start turns

final_holder : (final.fastest_lap_holder ≡ pos 0) × (final.fastest_lap_ms ≡ seconds 89)
unfolding run begin advance
final_holder = (refl, refl)

run-fastest_example :
    (final.fastest_lap_ms ≡ newest final.won)
    × Falling final.won
    × All (λ t. fixed_floats.lt t final.fastest_lap_ms ≡ false) final.settled
run-fastest_example = run-fastest Fixed-IsOrdered turns

-- A claim of a thread that misses twice for no reason.
run_alone_example :
    (run start (call 3 (pos 4) (seconds 90) ∷ rounds 3 2)).race
    ≡ (try_claim_fastest_lap init (pos 4) (seconds 90)).0
run_alone_example = run_alone Fixed-IsOrdered 2 start 3 (pos 4) (seconds 90) refl

abbrev crossed : System Fixed
crossed = run start (crossing (pos 4) (pos 0) (seconds 90) (seconds 89))

holder_mismatch_example :
    (crossed.fastest_lap_ms ≡ seconds 89)
    × (crossed.fastest_lap_holder ≡ pos 4)
    × (crossed.won ≡ seconds 89 ∷ seconds 90 ∷ [])
    × (crossed.threads 0 ≡ outside)
    × (crossed.threads 1 ≡ outside)
holder_mismatch_example =
    holder_mismatch Fixed-IsOrdered (pos 4) (pos 0) (seconds 90) (seconds 89) refl refl

abbrev fair : WeatherSystem (List RaceControlEvent)
fair = Weather.init []

abbrev sky : List (Call Fixed)
sky =
    record { coin = fixed_floats.ratio 1 100; now = 3; lap = 4 }
    ∷ record { coin = fixed_floats.ratio 1 100; now = 4; lap = 5 }
    ∷ record { coin = fixed_floats.ratio 50 100; now = 5; lap = 10 }
    ∷ record { coin = fixed_floats.ratio 10 100; now = 6; lap = 15 }
    ∷ []

sky_wet : (updates list_queue sky fair).state ≡ WeatherState.wet
unfolding updates update
sky_wet = refl

updates-Announces_example :
    (es : List RaceControlEvent) × ((updates list_queue sky fair).events ≡ [] ++ es)
    × Announces WeatherState.dry 0 es (updates list_queue sky fair).state
    × (length es ≡ changes 0 sky)
updates-Announces_example = updates-Announces list_queue sky fair [] refl
