-- ===== src/LapTimes/Claims.antt =====
-- The loops of the consumer against the list of frames that the ring holds.
use formula_one_telemetry_si.Prelude.{
  ℕ, zero, suc, ◌<◌, ◌≡◌, refl, some, List, [], ◌∷◌, length, arith,
}
use formula_one_telemetry_si.Floats.{Floats}
use formula_one_telemetry_si.Types.{TelemetryFrame}
use formula_one_telemetry_si.Spsc.{IsCapacity, pop}
use formula_one_telemetry_si.Spsc.Fifo.{get}
use formula_one_telemetry_si.Spsc.Refine.{Represents}
use formula_one_telemetry_si.Spsc.Refine.Pop.{pop_refines}
use formula_one_telemetry_si.RaceState.{RaceState}
use formula_one_telemetry_si.LapTimes.{LapTimeConsumer, consume, drain}

module _ {F : Type 0} ⦃f : Floats F⦄ where
  -- The frames consumed, oldest first.
  abbrev pub consume_all : RaceState F → List (TelemetryFrame F) → RaceState F
  consume_all race [] = race
  consume_all race (t ∷ ts) = consume_all (consume race t) ts

  module _ {capacity : ℕ} (valid : IsCapacity capacity) where
    -- On a ring of a valid capacity, with more fuel than frames in it, the last loop of the consumer returns; it has consumed
    -- every frame that the ring held, in order, and leaves the ring empty.
    pub drain_consumes :
        (fuel : ℕ) (c : LapTimeConsumer F) (ts : List (TelemetryFrame F))
        → Represents capacity c.queue ts
        → length ts < fuel
        → (c' : LapTimeConsumer F) × (drain capacity fuel c ≡ some c')
          × (c'.race_state ≡ consume_all c.race_state ts)
          × Represents capacity c'.queue []
    unfolding drain get
    drain_consumes zero c ts r l = absurd (omega arith)
    drain_consumes (suc fuel) c [] r l =
        let (done, out, r') = pop_refines valid c.queue [] r in
        (record { queue = _; race_state = c.race_state }, rw (done, drain) refl, refl, r')
    drain_consumes (suc fuel) c (t ∷ ts) r l =
        let (done, out, r') = pop_refines valid c.queue (t ∷ ts) r in
        let (c', returns, consumed, empty) =
          drain_consumes fuel
            (record { queue = (pop capacity c.queue).0; race_state = consume c.race_state t }) ts r'
            (omega arith) in
        (c', rw (done, out, drain) returns, consumed, empty)
