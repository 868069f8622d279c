-- ===== src/Program/Console/Rounds.antt =====
-- The loop of the main thread ends, whatever the other threads do.
use formula_one_telemetry_si.Prelude.{
  ℕ, zero, suc, ◌+◌, ◌-◌, ◌*◌, ◌≤◌, ◌<◌, ◌≡◌, refl, Option, some, List, [], ◌∷◌, ◌++◌, ap, if-both,
  ltb, arith,
}
use formula_one_telemetry_si.Prelude.Text.{Text}
use formula_one_telemetry_si.Floats.{Floats}
use formula_one_telemetry_si.Types.{DriverState}
use formula_one_telemetry_si.Program.Console.{View, safety_timeout, prepend, screen, shown, rounds}

-- A clock that goes on by half a second a round.
pub record IsPaced {F : Type 0} (view : ℕ → View F) (race_start_time : ℕ) : Type 0 where
  pub begins : race_start_time ≤ (view 0).now
  pub sleeps : (k : ℕ) → (view k).now + 500 ≤ (view (suc k)).now

abbrev Returns : Option Text → Type 0
Returns o = (written : Text) × (o ≡ some written)

module _ {F : Type 0} (view : ℕ → View F) (race_start_time : ℕ)
    (paced : IsPaced view race_start_time) where
  now-le : (k : ℕ) → race_start_time + 500 * k ≤ (view k).now
  now-le zero = omega (arith, paced.begins)
  now-le (suc k) = omega (arith, now-le k, paced.sleeps k)

  module _ ⦃f : Floats F⦄ (fixed : ℕ → F → Text) where
    Returns-shown :
        (v : View F) (ss : List (DriverState F)) (rest : Option Text)
        → Returns rest
        → Returns (shown fixed v ss rest)
    Returns-shown v [] rest r = r
    Returns-shown v (s ∷ ss) rest (written, e) =
        (screen fixed v ++ written, ap (prepend (screen fixed v)) e)

    Returns-rounds :
        (fuel k : ℕ)
        → 0 < fuel
        → 122 ≤ k + fuel
        → Returns (rounds fixed view race_start_time fuel k)
    unfolding rounds
    Returns-rounds zero k more enough = absurd (omega (arith, more))
    Returns-rounds (suc fuel) k more enough =
        if-both Returns (view k).race_finished (λ _. (_, refl))
          (λ _.
            if-both Returns (ltb safety_timeout ((view k).now - race_start_time)) (λ _. (_, refl))
              (λ early.
                let soon : (view k).now - race_start_time ≤ 60_000 = ground arith in
                Returns-shown (view k) (view k).standings _
                  (Returns-rounds fuel (suc k) (omega (arith, now-le k)) (omega arith))))

-- Where the clock never goes back and a round sleeps for half a second at least, 122 rounds are enough
-- for the loop of the main thread to end, also in a race that never ends.
pub rounds_return :
    {F : Type 0} ⦃f : Floats F⦄ (fixed : ℕ → F → Text) (view : ℕ → View F)
    (race_start_time fuel : ℕ)
    → IsPaced view race_start_time
    → 122 ≤ fuel
    → (written : Text) × (rounds fixed view race_start_time fuel 0 ≡ some written)
rounds_return fixed view race_start_time fuel paced enough =
    Returns-rounds view race_start_time paced fixed fuel 0 (omega arith) (omega arith)
