-- ===== src/Telemetry/Pits.antt =====
-- The pit stops: how long one lasts, and that a car makes at most one.
use formula_one_telemetry_si.Prelude.{
  ℕ, zero, suc, ◌+◌, ◌≤◌, ◌<◌, ◌≡◌, refl, sym, Bool, true, false, List, [], ◌∷◌, All, if◌then◌else◌,
  if-both, arith, ◌∙◌,
}
use formula_one_telemetry_si.Prelude.Int.{pos, ◌-ℤ◌, ltb_ℤ}
use formula_one_telemetry_si.Floats.{Floats}
use formula_one_telemetry_si.Types.{DriverState, DriverProfile, TrackProfile}
use formula_one_telemetry_si.Season.{drivers}
use formula_one_telemetry_si.Telemetry.{
  World, new_generator, handle_pit, stand, leave_pit, enter_pit, should_pit, drive, finish_lap,
  move_car, grid, ticks,
}
use formula_one_telemetry_si.Telemetry.Runs.{ticks-All}

module _ {F : Type 0} ⦃f : Floats F⦄ where
  handle_pit-more :
      (s : DriverState F) (n : ℕ)
      → s.pit_timer_ticks ≡ pos (suc (suc n))
      → handle_pit s ≡ stand (pos (suc n)) s
  unfolding handle_pit
  handle_pit-more s n timer = rw (timer, less, more) refl
    where
      less : pos (suc (suc n)) -ℤ pos 1 ≡ pos (suc n)
      less = ground arith

      more : ltb_ℤ (pos 0) (pos (suc n)) ≡ true
      more = ground arith

  handle_pit-last :
      (s : DriverState F) → s.pit_timer_ticks ≡ pos 1 → handle_pit s ≡ leave_pit (stand (pos 0) s)
  unfolding handle_pit
  handle_pit-last s timer = rw timer refl

  -- `n` ticks in the pits.
  unfoldable pub pit_calls : ℕ → DriverState F → DriverState F
  pit_calls zero s = s
  pit_calls (suc n) s = pit_calls n (handle_pit s)

  -- A car with more than `n` ticks to go in the pits is there for `n` more.
  pit_calls-during :
      (n k : ℕ) (s : DriverState F)
      → s.pit_timer_ticks ≡ pos (suc n)
      → k ≤ n
      → ((pit_calls k s).in_pit ≡ s.in_pit) × ((pit_calls k s).pit_stops ≡ s.pit_stops)
  unfolding pit_calls
  pit_calls-during n zero s timer l = (refl, refl)
  pit_calls-during zero (suc k) s timer l = absurd (omega arith)
  pit_calls-during (suc n) (suc k) s timer l =
      rw (handle_pit-more s n timer, pit_calls)
        (pit_calls-during n k (stand (pos (suc n)) s) refl (omega arith))

  -- After the last of its ticks in the pits a car is out, with one stop more, new tires and full of
  -- fuel.
  pit_calls-after :
      (n : ℕ) (s : DriverState F)
      → s.pit_timer_ticks ≡ pos (suc n)
      → let after = pit_calls (suc n) s in
        (after.in_pit ≡ false)
        × (after.pit_stops ≡ suc s.pit_stops)
        × (after.latest_frame.tire_wear ≡ f.ratio 2 100)
        × (after.latest_frame.fuel_kg ≡ f.ratio 100 1)
  unfolding pit_calls
  pit_calls-after zero s timer = rw (handle_pit-last s timer) (refl, refl, refl, refl)
  pit_calls-after (suc n) s timer =
      rw (handle_pit-more s n timer, pit_calls) (pit_calls-after n (stand (pos (suc n)) s) refl)

  -- A car with `n + 1` ticks to go in the pits: after any `k` of them but the last it is still in the
  -- pits, with no stop more; after the last it is out, with one stop more, new tires and full of fuel.
  pub pit_calls_lem :
      (n k : ℕ) (s : DriverState F)
      → s.pit_timer_ticks ≡ pos (suc n)
      → k ≤ n
      → let during = pit_calls k s in
        let after = pit_calls (suc n) s in
        ((during.in_pit ≡ s.in_pit) × (during.pit_stops ≡ s.pit_stops))
        × (after.in_pit ≡ false)
        × (after.pit_stops ≡ suc s.pit_stops)
        × (after.latest_frame.tire_wear ≡ f.ratio 2 100)
        × (after.latest_frame.fuel_kg ≡ f.ratio 100 1)
  pit_calls_lem n k s timer l =
      let (out, stops, tires, fuel) = pit_calls-after n s timer in
      (pit_calls-during n k s timer l, out, stops, tires, fuel)

  -- What the pit fields of a car say of each other.
  pub record PitOk (s : DriverState F) : Type 0 where
    pub stops : s.pit_stops + (if s.in_pit then 1 else 0) ≡ (if s.has_completed_pit then 1 else 0)
    pub left : s.in_pit ≡ true → (n : ℕ) × (s.pit_timer_ticks ≡ pos (suc n)) × (n < 11)
    pub shown : s.latest_frame.in_pit ≡ s.in_pit

  stand-PitOk :
      (s : DriverState F) (n : ℕ)
      → s.in_pit ≡ true
      → n < 11
      → PitOk s
      → PitOk (stand (pos (suc n)) s)
  stand-PitOk s n here l v = record { stops = v.stops; left = λ _. (n, refl, l); shown = sym here }

  leave_pit-PitOk :
      (s : DriverState F) → s.in_pit ≡ true → PitOk s → PitOk (leave_pit (stand (pos 0) s))
  leave_pit-PitOk s here v = record {
    stops = ground (arith, v.stops);
    left = λ h. cc;
    shown = refl;
  }

  handle_pit-PitOk : (s : DriverState F) → s.in_pit ≡ true → PitOk s → PitOk (handle_pit s)
  handle_pit-PitOk s here v = let (n, timer, l) = v.left here in go n timer l
    where
      go : (n : ℕ) → s.pit_timer_ticks ≡ pos (suc n) → n < 11 → PitOk (handle_pit s)
      go zero timer l = rw (handle_pit-last s timer) (leave_pit-PitOk s here v)
      go (suc n) timer l = rw (handle_pit-more s n timer) (stand-PitOk s n here (omega arith) v)

  drive-PitOk :
      (track : TrackProfile F) (draw : F) (s : DriverState F) → PitOk s → PitOk (drive track draw s)
  unfolding drive
  drive-PitOk track draw s v = record { stops = v.stops; left = v.left; shown = v.shown }

  in_pit-drive :
      (track : TrackProfile F) (draw : F) (s : DriverState F)
      → (drive track draw s).in_pit ≡ s.in_pit
  unfolding drive
  in_pit-drive track draw s = refl

  should_pit-completed : (s : DriverState F) → should_pit s ≡ true → s.has_completed_pit ≡ false
  unfolding should_pit
  should_pit-completed s h = ground arith

  enter_pit-PitOk :
      (s : DriverState F)
      → s.in_pit ≡ false
      → s.has_completed_pit ≡ false
      → PitOk s
      → PitOk (enter_pit s)
  enter_pit-PitOk s out not_yet v = record {
    stops = ground (arith, v.stops);
    left = λ _. (10, refl, omega arith);
    shown = refl;
  }

  after_lap-PitOk :
      (s : DriverState F)
      → s.in_pit ≡ false
      → PitOk s
      → PitOk (if should_pit s then enter_pit s else s)
  after_lap-PitOk s out v =
      if-both PitOk (should_pit s) (λ pits. enter_pit-PitOk s out (should_pit-completed s pits) v)
        (λ _. v)

  finish_lap-PitOk :
      (track : TrackProfile F) (now : ℕ) (ms : F) (s : DriverState F)
      → s.in_pit ≡ false
      → PitOk s
      → PitOk (finish_lap track now ms s)
  unfolding finish_lap
  finish_lap-PitOk track now ms s out v =
      after_lap-PitOk _ out (record { stops = v.stops; left = v.left; shown = v.shown })

module _ {F W : Type 0} ⦃f : Floats F⦄ (world : World F W) where
  move_car-PitOk :
      (track : TrackProfile F) (w : W) (s : DriverState F)
      → PitOk s
      → PitOk (move_car world track w s).0
  unfolding move_car
  move_car-PitOk track w s v =
      let driven = drive track (world.normal w).0 s in
      let d = drive-PitOk track (world.normal w).0 s v in
      if-both (λ (r : DriverState F × Bool × W). PitOk r.0) s.in_pit
        (λ here. handle_pit-PitOk s here v)
        (λ out.
          if-both (λ (r : DriverState F × Bool × W). PitOk r.0)
            (f.le track.length_km driven.distance_in_lap)
            (λ _. finish_lap-PitOk track _ _ driven (in_pit-drive track _ s ∙ out) d) (λ _. d))

  grid-PitOk : (n i : ℕ) (ps : List (DriverProfile F)) (w : W) → All PitOk (grid world n i ps w).0
  unfolding grid
  grid-PitOk n i [] w = tt
  grid-PitOk n i (p ∷ ps) w =
      (record { stops = refl; left = λ h. cc; shown = refl }, grid-PitOk n (suc i) ps _)

  -- From a new generator, after any number of ticks: no car has made more than one stop, a car that
  -- has made one or is in the pits has used up its right to one, a car in the pits has 1 to 11 ticks
  -- to go, and the frame of every car says whether it is in the pits.
  pub ticks-PitOk :
      (track : TrackProfile F) (asked : ℕ → Bool) (n : ℕ) (w : W)
      → let (g, w') = new_generator world track w in All PitOk (ticks world asked 0 n g w').0.states
  ticks-PitOk track asked n w =
      let (g, w') = new_generator world track w in
      ticks-All PitOk (λ _ _ s v. record { stops = v.stops; left = v.left; shown = v.shown })
        (λ _ s v. record { stops = v.stops; left = v.left; shown = v.shown }) world (move_car-PitOk)
        asked 0 n g w' (grid-PitOk 20 0 drivers w)
