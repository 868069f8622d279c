-- ===== src/Tests/Programs.antt =====
-- The loop of the main thread in src/main.cpp.
use formula_one_telemetry_si.Prelude.{◌+◌, ◌*◌, false, ℕ, ◌≡◌, some, [], arith}
use formula_one_telemetry_si.Prelude.Text.{Text}
use formula_one_telemetry_si.Floats.Fixed.{Fixed, fixed_floats}
use formula_one_telemetry_si.Types.{WeatherState, PenaltyState}
use formula_one_telemetry_si.Program.Console.{View, rounds}
use formula_one_telemetry_si.Program.Console.Rounds.{rounds_return}

-- A race that never ends, read every 600 milliseconds; no texts of floats.
abbrev endless : ℕ → View Fixed
endless k = record {
  race_finished = false;
  now = 600 * k + 5;
  standings = [];
  lap = 1;
  current = WeatherState.dry;
  grip_factor = fixed_floats.ratio 1 1;
  penalty_state = λ _. PenaltyState.none;
}

rounds_return_example : (written : Text) × (rounds (λ _ _. []) endless 3 122 0 ≡ some written)
rounds_return_example =
    rounds_return (λ _ _. []) endless 3 122
      (record { begins = omega arith; sleeps = λ k. omega arith }) (omega arith)
