-- ===== src/Program/Process/LapKept.antt =====
-- The consumer leaves the lap counter, and the end of a job the number of jobs.
use formula_one_telemetry_si.Prelude.{
  ℕ, zero, suc, ◌≡◌, refl, ap, Option, none, some, List, [], ◌∷◌, length, if-both, arith,
}
use formula_one_telemetry_si.Prelude.Int.{ℤ, pos, negsuc}
use formula_one_telemetry_si.Prelude.Text.{until_nul}
use formula_one_telemetry_si.Floats.{Floats}
use formula_one_telemetry_si.Types.{TelemetryFrame, zero_f}
use formula_one_telemetry_si.Season.{driver_index_of}
use formula_one_telemetry_si.Spsc.{pop}
use formula_one_telemetry_si.RaceState.{RaceState, try_claim_fastest_lap}
use formula_one_telemetry_si.LapTimes.{LapTimeConsumer, consume, after_pop, poll}
use formula_one_telemetry_si.Program.{Entry}
use formula_one_telemetry_si.Program.Live.{keep_promise}

module _ {F : Type 0} ⦃f : Floats F⦄ where
  abbrev SameLap : RaceState F → RaceState F → Type 0
  SameLap r z = z.current_lap ≡ r.current_lap

  -- The consumer leaves the lap counter.
  lap-consume : (r : RaceState F) (t : TelemetryFrame F) → (consume r t).current_lap ≡ r.current_lap
  unfolding consume try_claim_fastest_lap
  lap-consume r t =
      if-both (λ (z : RaceState F). z.current_lap ≡ r.current_lap) (f.lt zero_f t.lap_time_ms)
        (λ _. go (driver_index_of F (until_nul t.driver_id))) (λ _. refl)
    where
      go :
          (z : ℤ)
          → SameLap r (elim z [
            | pos idx ↦ (try_claim_fastest_lap r (pos idx) t.lap_time_ms).0
            | negsuc _ ↦ r
          ])
      go (pos idx) = ground arith
      go (negsuc n) = refl

  lap-after_pop :
      (r : RaceState F) (o : Option (TelemetryFrame F))
      → (after_pop r o).current_lap ≡ r.current_lap
  lap-after_pop r none = refl
  lap-after_pop r (some t) = lap-consume r t

  pub lap-poll :
      (capacity : ℕ) (c : LapTimeConsumer F)
      → (poll capacity c).race_state.current_lap ≡ c.race_state.current_lap
  unfolding poll
  lap-poll capacity c =
      if-both (λ (z : RaceState F). z.current_lap ≡ c.race_state.current_lap)
        (pop capacity c.queue).1 (λ _. lap-after_pop c.race_state (pop capacity c.queue).2)
        (λ _. refl)

pub length-keep_promise :
    {F : Type 0} (jobs : List (Entry F)) (k : ℕ) → length (keep_promise jobs k) ≡ length jobs
length-keep_promise [] k = refl
length-keep_promise (e ∷ es) zero = refl
length-keep_promise (e ∷ es) (suc k) = ap suc (length-keep_promise es k)
