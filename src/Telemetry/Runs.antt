-- ===== src/Telemetry/Runs.antt =====
-- What every car keeps through its own move and through a new place and a new DRS flag, every car
-- keeps through any number of ticks.
use formula_one_telemetry_si.Prelude.{
  ℕ, zero, suc, ◌==◌, Bool, false, ◌||◌, List, [], ◌∷◌, set, get_or, All, if◌then◌else◌, Bool-cases,
  inl, inr,
}
use formula_one_telemetry_si.Floats.{Floats}
use formula_one_telemetry_si.Types.{DriverState, TrackProfile, zero_f, blank_state}
use formula_one_telemetry_si.Telemetry.{World, TelemetryGenerator, move_car, move_cars, tick, ticks}
use formula_one_telemetry_si.Telemetry.Positions.{
  with_place, with_drs, state_of, gap_between, assign, assign_drs, order, update_positions_and_drs,
}

-- A write that changes the element in place.
All-set {ℓ} :
    {A : Type 0} (P : A → Type ℓ) (h : A → A) (d : A) (xs : List A) (i : ℕ)
    → ((x : A) → P x → P (h x))
    → All P xs
    → All P (set xs i (h (get_or xs i d)))
All-set P h d [] i k a = tt
All-set P h d (x ∷ xs) zero k a = (k x a.0, a.1)
All-set P h d (x ∷ xs) (suc i) k a = (a.0, All-set P h d xs i k a.1)

module _ {F : Type 0} ⦃f : Floats F⦄ (P : DriverState F → Type 0)
    (places : (n : ℕ) (gap : F) (s : DriverState F) → P s → P (with_place n gap s))
    (flags : (b : Bool) (s : DriverState F) → P s → P (with_drs b s)) where
  assign-All :
      (track : TrackProfile F) (first p : ℕ) (is : List ℕ) (states : List (DriverState F))
      → All P states
      → All P (assign track first p is states)
  unfolding assign
  assign-All track first p [] states a = a
  assign-All track first p (i ∷ is) states a =
      let s = state_of states i in
      let gap = if p == 0 then zero_f else gap_between track (state_of states first) s in
      assign-All track first (suc p) is _
        (All-set P (with_place (suc p) gap) (blank_state 0) states i (places (suc p) gap) a)

  assign_drs-All :
      (prev : ℕ) (is : List ℕ) (states : List (DriverState F))
      → All P states
      → All P (assign_drs prev is states)
  unfolding assign_drs
  assign_drs-All prev [] states a = a
  assign_drs-All prev (i ∷ is) states a =
      assign_drs-All i is _ (All-set P (with_drs _) (blank_state 0) states i (flags _) a)

  pub update_positions_and_drs-All :
      (track : TrackProfile F) (states : List (DriverState F))
      → All P states
      → All P (update_positions_and_drs track states)
  unfolding update_positions_and_drs
  update_positions_and_drs-All track states a = go (order track states)
    where
      go :
          (is : List ℕ)
          → All P (elim is [
            | [] ↦ states
            | first ∷ rest ↦
                let placed = assign track first 0 (first ∷ rest) states in
                assign_drs first rest (set placed first (with_drs false (state_of placed first)))
          ])
      go [] = a
      go (first ∷ rest) = assign_drs-All first rest _ (
          All-set P (with_drs false) (blank_state 0) _ first (flags false)
            (assign-All track first 0 (first ∷ rest) states a))

  module _ {W : Type 0} (world : World F W)
      (moves : (track : TrackProfile F) (w : W) (s : DriverState F)
        → P s
        → P (move_car world track w s).0) where
    move_cars-All :
        (states : List (DriverState F)) (g : TelemetryGenerator F) (w : W)
        → All P states
        → All P (move_cars world states g w).0
    unfolding move_cars
    move_cars-All [] g w a = tt
    move_cars-All (s ∷ rest) g w a = (moves g.track w s a.0, move_cars-All rest _ _ a.1)

    pub tick-All :
        (g : TelemetryGenerator F) (w : W) → All P g.states → All P (tick world g w).0.states
    unfolding tick
    tick-All g w a = update_positions_and_drs-All g.track _ (move_cars-All g.states g w a)

    pub ticks-All :
        (asked : ℕ → Bool) (k n : ℕ) (g : TelemetryGenerator F) (w : W)
        → All P g.states
        → All P (ticks world asked k n g w).0.states
    unfolding ticks
    ticks-All asked k zero g w a = a
    ticks-All asked k (suc n) g w a = elim (Bool-cases (asked k || g.race_finished)) [
      | inl ends ↦ rw ends a
      | inr goes ↦ rw goes (ticks-All asked (suc k) n _ _ (tick-All g w a))
    ]
