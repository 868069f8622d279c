-- ===== src/Telemetry/Frames.antt =====
-- The frames that a tick hands to the ring.
use formula_one_telemetry_si.Prelude.{ℕ, ◌-◌, refl, List, [], ◌∷◌, arith}
use formula_one_telemetry_si.Floats.{Floats}
use formula_one_telemetry_si.Types.{DriverState, TelemetryFrame}
use formula_one_telemetry_si.Spsc.{IsCapacity}
use formula_one_telemetry_si.Spsc.Fifo.{put}
use formula_one_telemetry_si.Spsc.Refine.{Represents}
use formula_one_telemetry_si.Spsc.Refine.Push.{push_refines}
use formula_one_telemetry_si.Telemetry.{
  World, TelemetryGenerator, queue_capacity, move_car, move_cars, tick,
}

pub queue_capacity-IsCapacity : IsCapacity queue_capacity
queue_capacity-IsCapacity = record {
  at_least_two = omega arith;
  power_of_two = refl;
  fits = omega arith;
}

-- The frames put into a list of at most `bound` items, those that find it full dropped.
abbrev pub offered {ℓ} : {A : Type ℓ} → ℕ → List A → List A → List A
offered bound xs [] = xs
offered bound xs (t ∷ ts) = offered bound (put bound xs t).0 ts

-- The frames of the cars, in their order.
abbrev pub frames : {F : Type 0} → List (DriverState F) → List (TelemetryFrame F)
frames [] = []
frames (s ∷ rest) = s.latest_frame ∷ frames rest

module _ {F W : Type 0} ⦃f : Floats F⦄ (world : World F W) where
  move_cars-Represents :
      (states : List (DriverState F)) (g : TelemetryGenerator F) (w : W)
      (xs : List (TelemetryFrame F))
      → Represents queue_capacity g.queue xs
      → Represents queue_capacity
          (move_cars world states g w).1.queue
          (offered (queue_capacity - 1) xs (frames (move_cars world states g w).0))
  unfolding move_cars
  move_cars-Represents [] g w xs r = r
  move_cars-Represents (s ∷ rest) g w xs r =
      move_cars-Represents rest _ _ _
        (push_refines queue_capacity-IsCapacity g.queue xs
          (move_car world g.track w s).0.latest_frame r).1

  -- A tick over a ring that holds `xs`: every car's frame after its move is offered to the ring, in
  -- the order of the cars; the ring keeps what fits into 2047 items, oldest first, and drops the rest.
  pub tick_offers :
      (g : TelemetryGenerator F) (w : W) (xs : List (TelemetryFrame F))
      → Represents queue_capacity g.queue xs
      → Represents queue_capacity
          (tick world g w).0.queue
          (offered (queue_capacity - 1) xs (frames (move_cars world g.states g w).0))
  unfolding tick
  tick_offers g w xs r = move_cars-Represents g.states g w xs r
