-- ===== src/Telemetry/Columns.antt =====
-- A field of the cars that a new place and a new DRS flag leave alone.
use formula_one_telemetry_si.Prelude.{
  ℕ, zero, suc, ◌==◌, ◌≡◌, refl, ap, ◌∙◌, Bool, false, List, [], ◌∷◌, set, get_or, map,
  if◌then◌else◌,
}
use formula_one_telemetry_si.Floats.{Floats}
use formula_one_telemetry_si.Types.{DriverState, TrackProfile, zero_f, blank_state}
use formula_one_telemetry_si.Telemetry.Positions.{
  with_place, with_drs, state_of, gap_between, assign, assign_drs, order, update_positions_and_drs,
}

-- A write in place that does not show in the column.
map-set :
    {A B : Type 0} (p : A → B) (h : A → A) (d : A) (xs : List A) (i : ℕ)
    → ((x : A) → p (h x) ≡ p x)
    → map p (set xs i (h (get_or xs i d))) ≡ map p xs
map-set p h d [] i k = refl
map-set p h d (x ∷ xs) zero k = ap (λ y. y ∷ map p xs) (k x)
map-set p h d (x ∷ xs) (suc i) k = ap (◌∷◌ (p x)) (map-set p h d xs i k)

module _ {F : Type 0} ⦃f : Floats F⦄ {B : Type 0} (p : DriverState F → B)
    (places : (n : ℕ) (gap : F) (s : DriverState F) → p (with_place n gap s) ≡ p s)
    (flags : (b : Bool) (s : DriverState F) → p (with_drs b s) ≡ p s) where
  map-assign :
      (track : TrackProfile F) (first n : ℕ) (is : List ℕ) (states : List (DriverState F))
      → map p (assign track first n is states) ≡ map p states
  unfolding assign
  map-assign track first n [] states = refl
  map-assign track first n (i ∷ is) states =
      let s = state_of states i in
      let gap = if n == 0 then zero_f else gap_between track (state_of states first) s in
      map-assign track first (suc n) is _
      ∙ map-set p (with_place (suc n) gap) (blank_state 0) states i (places (suc n) gap)

  map-assign_drs :
      (prev : ℕ) (is : List ℕ) (states : List (DriverState F))
      → map p (assign_drs prev is states) ≡ map p states
  unfolding assign_drs
  map-assign_drs prev [] states = refl
  map-assign_drs prev (i ∷ is) states =
      map-assign_drs i is _ ∙ map-set p (with_drs _) (blank_state 0) states i (flags _)

  pub map-update_positions_and_drs :
      (track : TrackProfile F) (states : List (DriverState F))
      → map p (update_positions_and_drs track states) ≡ map p states
  unfolding update_positions_and_drs
  map-update_positions_and_drs track states = go (order track states)
    where
      go :
          (is : List ℕ)
          → map p (elim is [
            | [] ↦ states
            | first ∷ rest ↦
                let placed = assign track first 0 (first ∷ rest) states in
                assign_drs first rest (set placed first (with_drs false (state_of placed first)))
          ])
            ≡ map p states
      go [] = refl
      go (first ∷ rest) =
          map-assign_drs first rest _
          ∙ map-set p (with_drs false) (blank_state 0) _ first (flags false)
          ∙ map-assign track first 0 (first ∷ rest) states
