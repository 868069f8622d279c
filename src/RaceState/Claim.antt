-- ===== src/RaceState/Claim.antt =====
-- `try_claim_fastest_lap` of src/common/race_state.h cut at its accesses to the two atomics, for any
-- number of threads that interleave in any order.
use formula_one_telemetry_si.Prelude.{update, ℕ, Bool, not, ◌&&◌, List, [], ◌∷◌, if◌then◌else◌}
use formula_one_telemetry_si.Prelude.Int.{ℤ}
use formula_one_telemetry_si.Floats.{Floats}
use formula_one_telemetry_si.RaceState.{RaceState, init}

-- Where a thread stands in the call, with the locals `driver_index`, `lap_ms` and `current_best`.
pub data Claimer (F : Type 0) : Type 0 where
  outside : Claimer F
  exchanging : (driver_index : ℤ) (lap_ms current_best : F) → Claimer F
  storing : (driver_index : ℤ) → Claimer F  -- the time is set, the holder not yet

-- The atomics and the threads. `won` lists the lap times that an exchange has set, the newest first;
-- `settled` those whose call is past its last test, won or lost.
pub record System (F : Type 0) : Type 0 where
  pub race : RaceState F
  pub open race use *
  pub threads : ℕ → Claimer F
  pub won : List F
  pub settled : List F

-- A thread calls, or goes on. A weak exchange may fail though the values agree: `spurious`.
pub data Turn (F : Type 0) : Type 0 where
  call : (thread : ℕ) (driver_index : ℤ) (lap_ms : F) → Turn F
  go_on : (thread : ℕ) (spurious : Bool) → Turn F

module _ {F : Type 0} ⦃f : Floats F⦄ where
  -- The test `lap_ms < current_best` of the loop, after a load of `current_best`.
  abbrev pub retest : System F → ℕ → ℤ → F → System F
  retest s i d ms =
      if f.lt ms s.fastest_lap_ms
      then record s { threads = update s.threads i (exchanging d ms s.fastest_lap_ms) }
      else record s { threads = update s.threads i outside; settled = ms ∷ s.settled }

  -- The exchange that succeeds.
  abbrev pub win : System F → ℕ → ℤ → F → System F
  win s i d ms = record {
    race = record s.race { fastest_lap_ms = ms };
    threads = update s.threads i (storing d);
    won = ms ∷ s.won;
    settled = ms ∷ s.settled;
  }

  unfoldable pub advance : System F → ℕ → Bool → Claimer F → System F
  advance s i spurious outside = s
  advance s i spurious (exchanging d ms best) =
      if f.same_bits s.fastest_lap_ms best && not spurious then win s i d ms else retest s i d ms
  advance s i spurious (storing d) = record s {
    race = record s.race { fastest_lap_holder = d };
    threads = update s.threads i outside;
  }

  -- A thread that is inside a call does not call again.
  unfoldable pub begin : System F → ℕ → ℤ → F → Claimer F → System F
  begin s i d ms outside = retest s i d ms
  begin s i d ms (exchanging _ _ _) = s
  begin s i d ms (storing _) = s

  abbrev pub step : System F → Turn F → System F
  step s (call i d ms) = begin s i d ms (s.threads i)
  step s (go_on i spurious) = advance s i spurious (s.threads i)

  unfoldable pub run : System F → List (Turn F) → System F
  run s [] = s
  run s (t ∷ ts) = run (step s t) ts

  abbrev pub start : System F
  start = record { race = init; threads = λ _. outside; won = []; settled = [] }
