-- ===== src/Telemetry/Bounds.antt =====
-- The ranges of the readings that a telemetry frame carries.
use formula_one_telemetry_si.Prelude.{
  ℕ, suc, ◌≡◌, refl, Bool, false, List, [], ◌∷◌, All, if◌then◌else◌, if-both, arith,
}
use formula_one_telemetry_si.Prelude.Int.{ℤ, pos, ◌≤ℤ◌, ◌-ℤ◌, ◌+ℤ◌, ltb_ℤ}
use formula_one_telemetry_si.Floats.{Floats, IsOrdered, fmin, fmax, clamp, ◌/ᶠ◌}
use formula_one_telemetry_si.Floats.Order.{lt_irrefl, lt_asymm}
use formula_one_telemetry_si.Floats.Fixed.{Fixed, fixed_floats}
use formula_one_telemetry_si.Types.{
  DriverState, DriverProfile, TrackProfile, TelemetryFrame, zero_f,
}
use formula_one_telemetry_si.Season.{drivers}
use formula_one_telemetry_si.Telemetry.{
  World, new_generator, handle_pit, stand, leave_pit, enter_pit, should_pit, brake_at, min_ℤ,
  sector_at, drive, finish_lap, move_car, grid, ticks,
}
use formula_one_telemetry_si.Telemetry.Runs.{ticks-All}

-- How the literals that bound the readings compare: conversion from decimals keeps the order.
pub record HasLiterals (F : Type 0) ⦃f : Floats F⦄ : Type 0 where
  pub zero_one : f.lt (f.ratio 1 1) (f.ratio 0 1) ≡ false
  pub tenth_one : f.lt (f.ratio 1 1) (f.ratio 1 10) ≡ false
  pub zero_tenth : f.lt (f.ratio 1 10) (f.ratio 0 1) ≡ false
  pub fifth_one : f.lt (f.ratio 1 1) (f.ratio 2 10) ≡ false
  pub installed_one : f.lt (f.ratio 1 1) (f.ratio 2 100) ≡ false
  pub zero_tank : f.lt (f.ratio 100 1) (f.ratio 0 1) ≡ false
  pub low_top : f.lt (f.ratio 370 1) (f.ratio 80 1) ≡ false
  pub lane_top : f.lt (f.ratio 370 1) (f.ratio 60 1) ≡ false
  pub still_top : f.lt (f.ratio 370 1) (f.ratio 0 1) ≡ false

pub Fixed-HasLiterals : HasLiterals Fixed
Fixed-HasLiterals = record {
  zero_one = refl;
  tenth_one = refl;
  zero_tenth = refl;
  fifth_one = refl;
  installed_one = refl;
  zero_tank = refl;
  low_top = refl;
  lane_top = refl;
  still_top = refl;
}

module _ {F : Type 0} ⦃f : Floats F⦄ where
  -- No reading is past its bound. A reading that is NaN is past none.
  pub record InRange (t : TelemetryFrame F) : Type 0 where
    pub top_speed : f.lt (f.ratio 370 1) t.speed_kph ≡ false
    pub full_throttle : f.lt (f.ratio 1 1) t.throttle ≡ false
    pub full_brake : f.lt (f.ratio 1 1) t.brake ≡ false
    pub no_brake : f.lt t.brake (f.ratio 0 1) ≡ false
    pub worn : f.lt (f.ratio 1 1) t.tire_wear ≡ false
    pub dry : f.lt t.fuel_kg (f.ratio 0 1) ≡ false
    pub last_sector : t.sector ≤ℤ pos 3

  -- The other fields of a frame do not matter.
  kept :
      (t : TelemetryFrame F) (lap : ℕ) (drs pit : Bool) (gap ms : F)
      → InRange t
      → InRange (record t {
        lap = lap;
        drs_active = drs;
        in_pit = pit;
        gap_to_leader = gap;
        lap_time_ms = ms;
      })
  kept t lap drs pit gap ms v = record {
    top_speed = v.top_speed;
    full_throttle = v.full_throttle;
    full_brake = v.full_brake;
    no_brake = v.no_brake;
    worn = v.worn;
    dry = v.dry;
    last_sector = v.last_sector;
  }

module _ {F : Type 0} ⦃f : Floats F⦄ (laws : IsOrdered F) (lits : HasLiterals F) where
  fmin-le : (a b : F) → f.lt a (fmin a b) ≡ false
  fmin-le a b =
      if-both (λ m. f.lt a m ≡ false) (f.lt b a) (λ h. lt_asymm laws b a h) (λ _. lt_irrefl laws a)

  fmax-le : (a b : F) → f.lt (fmax a b) a ≡ false
  fmax-le a b =
      if-both (λ m. f.lt m a ≡ false) (f.lt a b) (λ h. lt_asymm laws a b h) (λ _. lt_irrefl laws a)

  clamp-le : (v lo hi : F) → f.lt hi lo ≡ false → f.lt hi (clamp v lo hi) ≡ false
  clamp-le v lo hi l =
      if-both (λ m. f.lt hi m ≡ false) (f.lt v lo) (λ _. l)
        (λ _. if-both (λ m. f.lt hi m ≡ false) (f.lt hi v) (λ _. lt_irrefl laws hi) (λ h. h))

  le-clamp : (v lo hi : F) → f.lt hi lo ≡ false → f.lt (clamp v lo hi) lo ≡ false
  le-clamp v lo hi l =
      if-both (λ m. f.lt m lo ≡ false) (f.lt v lo) (λ _. lt_irrefl laws lo)
        (λ h. if-both (λ m. f.lt m lo ≡ false) (f.lt hi v) (λ _. l) (λ _. h))

  min_ℤ-le : (a b : ℤ) → min_ℤ a b ≤ℤ a
  min_ℤ-le a b = ground arith

  sector_at-le : (track : TrackProfile F) (distance : F) → sector_at track distance ≤ℤ pos 3
  unfolding sector_at
  sector_at-le track distance =
      min_ℤ-le (pos 3) (f.trunc (distance /ᶠ (track.length_km /ᶠ f.ratio 3 1)) +ℤ pos 1)

  brake_at-le : (v : F) → f.lt (f.ratio 1 1) (brake_at v) ≡ false
  brake_at-le v =
      if-both (λ m. f.lt (f.ratio 1 1) m ≡ false) (f.lt v (f.ratio 150 1))
        (λ _. clamp-le _ zero_f (f.ratio 1 1) lits.zero_one) (λ _. lits.zero_one)

  le-brake_at : (v : F) → f.lt (brake_at v) (f.ratio 0 1) ≡ false
  le-brake_at v =
      if-both (λ m. f.lt m (f.ratio 0 1) ≡ false) (f.lt v (f.ratio 150 1))
        (λ _. le-clamp _ zero_f (f.ratio 1 1) lits.zero_one) (λ _. lt_irrefl laws zero_f)

  -- A car on the track is not slower than 80 kph either.
  pub drive-InRange :
      (track : TrackProfile F) (draw : F) (s : DriverState F)
      → let frame = (drive track draw s).latest_frame in
        InRange frame × (f.lt frame.speed_kph (f.ratio 80 1) ≡ false)
  unfolding drive
  drive-InRange track draw s = (
    record {
      top_speed = clamp-le _ _ _ lits.low_top;
      full_throttle = fmin-le _ _;
      full_brake = brake_at-le _;
      no_brake = le-brake_at _;
      worn = fmin-le _ _;
      dry = fmax-le _ _;
      last_sector = sector_at-le track _;
    },
    le-clamp _ _ _ lits.low_top,
  )

  stand-InRange :
      (timer : ℤ) (s : DriverState F)
      → InRange s.latest_frame
      → InRange (stand timer s).latest_frame
  stand-InRange timer s v = record {
    top_speed = lits.lane_top;
    full_throttle = lits.fifth_one;
    full_brake = lits.tenth_one;
    no_brake = lits.zero_tenth;
    worn = v.worn;
    dry = v.dry;
    last_sector = v.last_sector;
  }

  leave_pit-InRange :
      (s : DriverState F) → InRange s.latest_frame → InRange (leave_pit s).latest_frame
  leave_pit-InRange s v = record {
    top_speed = v.top_speed;
    full_throttle = v.full_throttle;
    full_brake = v.full_brake;
    no_brake = v.no_brake;
    worn = lits.installed_one;
    dry = lits.zero_tank;
    last_sector = v.last_sector;
  }

  handle_pit-InRange :
      (s : DriverState F) → InRange s.latest_frame → InRange (handle_pit s).latest_frame
  unfolding handle_pit
  handle_pit-InRange s v =
      let timer = s.pit_timer_ticks -ℤ pos 1 in
      let on = stand-InRange timer s v in
      if-both (λ (t : DriverState F). InRange t.latest_frame) (ltb_ℤ (pos 0) timer) (λ _. on)
        (λ _. leave_pit-InRange (stand timer s) on)

  after_lap-InRange :
      (s : DriverState F)
      → InRange s.latest_frame
      → InRange (if should_pit s then enter_pit s else s).latest_frame
  after_lap-InRange s v =
      if-both (λ (t : DriverState F). InRange t.latest_frame) (should_pit s)
        (λ _. kept _ _ _ _ _ _ v) (λ _. v)

  finish_lap-InRange :
      (track : TrackProfile F) (now : ℕ) (ms : F) (s : DriverState F)
      → InRange s.latest_frame
      → InRange (finish_lap track now ms s).latest_frame
  unfolding finish_lap
  finish_lap-InRange track now ms s v = after_lap-InRange _ (kept _ _ _ _ _ _ v)

module _ {F W : Type 0} ⦃f : Floats F⦄ (laws : IsOrdered F) (lits : HasLiterals F)
    (world : World F W) where
  move_car-InRange :
      (track : TrackProfile F) (w : W) (s : DriverState F)
      → InRange s.latest_frame
      → InRange (move_car world track w s).0.latest_frame
  unfolding move_car
  move_car-InRange track w s v =
      let driven = drive track (world.normal w).0 s in
      let (d, _) = drive-InRange laws lits track (world.normal w).0 s in
      if-both (λ (r : DriverState F × Bool × W). InRange r.0.latest_frame) s.in_pit
        (λ _. handle_pit-InRange laws lits s v)
        (λ _.
          if-both (λ (r : DriverState F × Bool × W). InRange r.0.latest_frame)
            (f.le track.length_km driven.distance_in_lap)
            (λ _. finish_lap-InRange laws lits track _ _ driven d) (λ _. d))

  grid-InRange :
      (n i : ℕ) (ps : List (DriverProfile F)) (w : W)
      → All (λ s. InRange s.latest_frame) (grid world n i ps w).0
  unfolding grid
  grid-InRange n i [] w = tt
  grid-InRange n i (p ∷ ps) w = (
    record {
      top_speed = lits.still_top;
      full_throttle = lits.zero_one;
      full_brake = lits.zero_one;
      no_brake = lt_irrefl laws zero_f;
      worn = lits.zero_one;
      dry = lits.zero_tank;
      last_sector = omega arith;
    },
    grid-InRange n (suc i) ps _,
  )

  -- From a new generator, after any number of ticks, in the frame of every car: the speed is not
  -- above 370, throttle and brake not above 1, the brake not below 0, the wear not above 1, the fuel
  -- not below 0, and the sector at most 3; this on any floats whose `<` is a strict order and whose
  -- literals compare as the decimals do.
  pub ticks-InRange :
      (track : TrackProfile F) (asked : ℕ → Bool) (n : ℕ) (w : W)
      → let (g, w') = new_generator world track w in
        All (λ s. InRange s.latest_frame) (ticks world asked 0 n g w').0.states
  ticks-InRange track asked n w =
      let (g, w') = new_generator world track w in
      ticks-All (λ s. InRange s.latest_frame) (λ _ _ s v. kept _ _ _ _ _ _ v)
        (λ _ s v. kept _ _ _ _ _ _ v) world move_car-InRange asked 0 n g w'
        (grid-InRange 20 0 drivers w)
