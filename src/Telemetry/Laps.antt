-- ===== src/Telemetry/Laps.antt =====
-- The lap counter of the race, and the end of the race.
use formula_one_telemetry_si.Prelude.{
  ℕ, zero, suc, ◌≤◌, ◌<◌, ◌≡◌, refl, sym, ap, ◌∙◌, Bool, true, false, Bool-cases, ◌||◌, List, [],
  ◌∷◌, map, max, ◌⊎◌, inl, inr, if◌then◌else◌, if-both, arith,
}
use formula_one_telemetry_si.Prelude.Int.{pos, ◌-ℤ◌, ltb_ℤ}
use formula_one_telemetry_si.Floats.{Floats}
use formula_one_telemetry_si.Types.{DriverState, DriverProfile, TrackProfile}
use formula_one_telemetry_si.Season.{drivers}
use formula_one_telemetry_si.Spsc.{push}
use formula_one_telemetry_si.Telemetry.{
  World, TelemetryGenerator, new_generator, total_laps, handle_pit, drive, finish_lap, move_car,
  move_cars, count_lap, queue_capacity, tick, grid, ticks,
}
use formula_one_telemetry_si.Telemetry.Columns.{map-update_positions_and_drs}

-- The greatest of the numbers, and 1 at least.
abbrev pub greatest : List ℕ → ℕ
greatest [] = 1
greatest (n ∷ ns) = max n (greatest ns)

module _ {F : Type 0} where
  abbrev pub lap_of : DriverState F → ℕ
  lap_of s = s.latest_frame.lap

module _ {F : Type 0} ⦃f : Floats F⦄ where
  lap_of-handle_pit : (s : DriverState F) → lap_of (handle_pit s) ≡ lap_of s
  unfolding handle_pit
  lap_of-handle_pit s =
      if-both (λ (r : DriverState F). lap_of r ≡ lap_of s)
        (ltb_ℤ (pos 0) (s.pit_timer_ticks -ℤ pos 1)) (λ _. refl) (λ _. refl)

  lap_of-finish_lap :
      (track : TrackProfile F) (now : ℕ) (ms : F) (s : DriverState F)
      → lap_of (finish_lap track now ms s) ≡ suc (lap_of s)
  unfolding finish_lap
  lap_of-finish_lap track now ms s =
      if-both (λ (r : DriverState F). lap_of r ≡ suc (lap_of s)) _ (λ _. refl) (λ _. refl)

  lap_of-drive :
      (track : TrackProfile F) (draw : F) (s : DriverState F)
      → lap_of (drive track draw s) ≡ lap_of s
  unfolding drive
  lap_of-drive track draw s = refl

module _ {F W : Type 0} ⦃f : Floats F⦄ (world : World F W) where
  -- A car moves on by the laps that it finishes.
  lap_of-move_car :
      (track : TrackProfile F) (w : W) (s : DriverState F)
      → lap_of (move_car world track w s).0
        ≡ (if (move_car world track w s).1 then suc (lap_of s) else lap_of s)
  unfolding move_car
  lap_of-move_car track w s =
      let driven = drive track (world.normal w).0 s in
      let fits =
        λ (r : DriverState F × Bool × W). lap_of r.0 ≡ (if r.1 then suc (lap_of s) else lap_of s) in
      if-both fits s.in_pit (λ _. lap_of-handle_pit s)
        (λ _.
          if-both fits (f.le track.length_km driven.distance_in_lap)
            (λ _. lap_of-finish_lap track _ _ driven ∙ ap suc (lap_of-drive track _ s))
            (λ _. lap_of-drive track _ s))

  lap_of-le :
      (track : TrackProfile F) (w : W) (s : DriverState F)
      → lap_of s ≤ lap_of (move_car world track w s).0
  lap_of-le track w s = rw (lap_of-move_car track w s) (
      if-both (λ k. lap_of s ≤ k) (move_car world track w s).1 (λ _. omega arith)
        (λ _. omega arith))

  -- The counter, and what the flag for the end says of it.
  abbrev Counts : ℕ → Bool → Type 0
  Counts race_lap race_finished = (race_finished ≡ false) ⊎ (total_laps < race_lap)

  count_lap-Counts :
      (s : DriverState F) (n l : ℕ) (b finished : Bool)
      → lap_of s ≡ (if finished then suc l else l)
      → l ≤ n
      → Counts n b
      → let (n', b') = if finished then count_lap world s (n, b) else (n, b) in
        (n' ≡ max n (lap_of s)) × Counts n' b'
  count_lap-Counts s n l b true e low v = ground arith
  count_lap-Counts s n l b false e low v = (omega arith, v)

  -- The counter of the race after one car.
  abbrev counted : TelemetryGenerator F → W → DriverState F → ℕ × Bool
  counted g w s =
      let (s', finished, _) = move_car world g.track w s in
      if finished
      then count_lap world s' (g.race_lap, g.race_finished)
      else (g.race_lap, g.race_finished)

  move_cars-laps :
      (states : List (DriverState F)) (g : TelemetryGenerator F) (w : W)
      → greatest (map lap_of states) ≤ g.race_lap
      → Counts g.race_lap g.race_finished
      → let (moved, g', _) = move_cars world states g w in
        (max g.race_lap (greatest (map lap_of moved)) ≡ g'.race_lap)
        × (greatest (map lap_of states) ≤ greatest (map lap_of moved))
        × Counts g'.race_lap g'.race_finished
  unfolding move_cars
  move_cars-laps [] g w low v = (omega (arith, low), omega arith, v)
  move_cars-laps (s ∷ rest) g w low v =
      let m = move_car world g.track w s in
      let e = lap_of-move_car g.track w s in
      let (here, ok) =
        count_lap-Counts m.0 g.race_lap (lap_of s) g.race_finished m.1 e (omega (arith, low)) v in
      let (there, grown, end) =
        move_cars-laps rest
          (record g {
            queue = (push queue_capacity g.queue m.0.latest_frame).0;
            race_lap = (counted g w s).0;
            race_finished = (counted g w s).1;
          })
          m.2 (omega (arith, low, here)) ok in
      let later = lap_of-le g.track w s in
      (omega (arith, here, there), omega (arith, grown, later), end)

  -- The counter is the lap of the car that has come furthest, and says when the race has ended.
  record LapsOk (g : TelemetryGenerator F) : Type 0 where
    count : g.race_lap ≡ greatest (map lap_of g.states)
    ended : Counts g.race_lap g.race_finished

  tick-LapsOk : (g : TelemetryGenerator F) (w : W) → LapsOk g → LapsOk (tick world g w).0
  unfolding tick
  tick-LapsOk g w v =
      let (moved, grown, end) = move_cars-laps g.states g w (omega (arith, v.count)) v.ended in
      let same =
        map-update_positions_and_drs lap_of (λ _ _ s. refl) (λ _ s. refl) g.track
          (move_cars world g.states g w).0 in
      record { count = omega (arith, moved, grown, v.count, ap greatest same); ended = end }

  ticks-LapsOk :
      (asked : ℕ → Bool) (k n : ℕ) (g : TelemetryGenerator F) (w : W)
      → LapsOk g
      → LapsOk (ticks world asked k n g w).0
  unfolding ticks
  ticks-LapsOk asked k zero g w v = v
  ticks-LapsOk asked k (suc n) g w v = elim (Bool-cases (asked k || g.race_finished)) [
    | inl ends ↦ rw ends v
    | inr goes ↦ rw goes (ticks-LapsOk asked (suc k) n _ _ (tick-LapsOk g w v))
  ]

  greatest-grid :
      (n i : ℕ) (ps : List (DriverProfile F)) (w : W)
      → greatest (map lap_of (grid world n i ps w).0) ≡ 1
  unfolding grid
  greatest-grid n i [] w = refl
  greatest-grid n i (p ∷ ps) w = omega (arith, greatest-grid n (suc i) ps _)

  -- From a new generator, after any number of ticks: the lap counter of the race is the lap of the car
  -- that has come furthest, and a race that has ended has its counter above the number of laps of a
  -- race.
  pub race_lap_lem :
      (track : TrackProfile F) (asked : ℕ → Bool) (n : ℕ) (w : W)
      → let (g₀, w') = new_generator world track w in
        let g = (ticks world asked 0 n g₀ w').0 in
        (g.race_lap ≡ greatest (map lap_of g.states))
        × ((g.race_finished ≡ false) ⊎ (total_laps < g.race_lap))
  race_lap_lem track asked n w =
      let (g₀, w') = new_generator world track w in
      let new : LapsOk g₀ = record {
        count = sym (greatest-grid 20 0 drivers w);
        ended = inl refl;
      } in
      let v = ticks-LapsOk asked 0 n g₀ w' new in (v.count, v.ended)
