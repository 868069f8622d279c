-- ===== src/LapTimes.antt =====
-- src/simulation/lap_time_consumer.h and lap_time_consumer.cpp: the thread that takes the frames out
-- of the ring and claims fastest laps. It is the only claimer, so a claim is one step here.
pub mod Claims
pub mod Pipeline
use formula_one_telemetry_si.Prelude.{
  ℕ, zero, suc, Bool, true, false, Option, none, some, List, [], ◌∷◌, if◌then◌else◌,
}
use formula_one_telemetry_si.Prelude.Int.{ℤ, pos, negsuc}
use formula_one_telemetry_si.Prelude.Text.{until_nul}
use formula_one_telemetry_si.Floats.{Floats}
use formula_one_telemetry_si.Types.{TelemetryFrame, zero_f}
use formula_one_telemetry_si.Season.{driver_index_of}
use formula_one_telemetry_si.Spsc.{SpscQueue, pop}
use formula_one_telemetry_si.RaceState.{RaceState, try_claim_fastest_lap}

pub record LapTimeConsumer (F : Type 0) : Type 0 where
  pub queue : SpscQueue (TelemetryFrame F)
  pub race_state : RaceState F

module _ {F : Type 0} ⦃f : Floats F⦄ where
  -- The body of both loops, on the frame that a pop returned.
  unfoldable pub consume : RaceState F → TelemetryFrame F → RaceState F
  consume race frame =
      if f.lt zero_f frame.lap_time_ms
      then elim (driver_index_of F (until_nul frame.driver_id)) [
        | pos idx ↦ (try_claim_fastest_lap race (pos idx) frame.lap_time_ms).0
        | negsuc _ ↦ race
      ]
      else race

  -- `out` is what a successful pop leaves in `frame`; `none` is a read outside the buffer.
  abbrev pub after_pop : RaceState F → Option (TelemetryFrame F) → RaceState F
  after_pop race none = race
  after_pop race (some frame) = consume race frame

  -- A round of the first loop: a pop, and its frame consumed, or a sleep.
  unfoldable pub poll : ℕ → LapTimeConsumer F → LapTimeConsumer F
  poll capacity c =
      let (q, done, out) = pop capacity c.queue in
      record { queue = q; race_state = if done then after_pop c.race_state out else c.race_state }

  -- The second loop, once a stop has been requested; `fuel` bounds its rounds.
  unfoldable pub drain : ℕ → ℕ → LapTimeConsumer F → Option (LapTimeConsumer F)
  unfolding poll
  drain capacity zero c = none
  drain capacity (suc fuel) c =
      let (q, done, out) = pop capacity c.queue in
      let rest =
        drain capacity fuel (record { queue = q; race_state = after_pop c.race_state out }) in
      if done then rest else some (record { queue = q; race_state = c.race_state })
