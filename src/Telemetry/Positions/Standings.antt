-- ===== src/Telemetry/Positions/Standings.antt =====
-- What `update_positions_and_drs` promises of the positions.
use formula_one_telemetry_si.Prelude.{
  ℕ, suc, ◌≤◌, ◌<◌, ◌≡◌, ◌↔◌, sym, false, List, some, arith, ap, ap₂, ◌∙◌, length, get_elem?,
  lt_of_get_elem?, get_elem?_of_lt, ◌≢◌, ◌⊎◌, inl, inr, ℕ_discrete,
}
use formula_one_telemetry_si.Prelude.Forall.{All-get_elem?}
use formula_one_telemetry_si.Floats.{Floats, IsOrdered, ◌+ᶠ◌, ◌*ᶠ◌}
use formula_one_telemetry_si.Floats.Order.{lt_asymm}
use formula_one_telemetry_si.Types.{DriverState, TrackProfile}
use formula_one_telemetry_si.Telemetry.Positions.{
  state_of, race_distance, ahead, order, update_positions_and_drs,
}
use formula_one_telemetry_si.Telemetry.Positions.Sort.{stable_sort-Sorted, Sorted-get_elem?}
use formula_one_telemetry_si.Telemetry.Positions.Ranks.{
  position_of, order-Distinct, order-below, order-length, order-Found, placed-position,
  placed-distance, update-placed,
}

module _ {F : Type 0} ⦃f : Floats F⦄ where
  update-position :
      (track : TrackProfile F) (states : List (DriverState F)) (k i : ℕ)
      → get_elem? (order track states) k ≡ some i
      → position_of (update_positions_and_drs track states) i ≡ suc k
  update-position track states k i e =
      ap (λ l. position_of l i) (update-placed track states)
      ∙ placed-position track (order track states) states k i (order-Distinct track states)
          (order-below track states) e

  -- The car that comes at a position.
  at_position :
      (track : TrackProfile F) (states : List (DriverState F)) (i : ℕ)
      → i < length states
      → (k : ℕ) × (get_elem? (order track states) k ≡ some i)
        × (position_of (update_positions_and_drs track states) i ≡ suc k)
        × (k < length states)
  at_position track states i l =
      let (k, e) = order-Found track states i l in
      (
        k,
        e,
        update-position track states k i e,
        omega (arith, lt_of_get_elem? (order track states) k i e, order-length track states),
      )

  -- The car that has a position.
  pub holder_of :
      (track : TrackProfile F) (states : List (DriverState F)) (k : ℕ)
      → k < length states
      → (i : ℕ) × (i < length states)
        × (position_of (update_positions_and_drs track states) i ≡ suc k)
  holder_of track states k l =
      let (i, e) =
        get_elem?_of_lt (order track states) k (omega (arith, l, order-length track states)) in
      (
        i,
        All-get_elem? (λ i. i < length states) (order track states) k i (order-below track states)
            e,
        update-position track states k i e,
      )

  -- After `update_positions_and_drs` every car has a position from 1 to the number of cars, and two
  -- cars have the same position only if they are the same car.
  pub positions_injective :
      (track : TrackProfile F) (states : List (DriverState F)) (i j : ℕ)
      → i < length states
      → j < length states
      → let new = update_positions_and_drs track states in
        (1 ≤ (state_of new i).position)
        × ((state_of new i).position ≤ length states)
        × (((state_of new i).position ≡ (state_of new j).position) ↔ (i ≡ j))
  positions_injective track states i j l m =
      let new = update_positions_and_drs track states in
      let (k, e, at, less) = at_position track states i l in
      let (n, e', at', _) = at_position track states j m in
      (
        omega (arith, at),
        omega (arith, at),
        (
          λ same.
              let here : k ≡ n = omega (arith, at, at') in
              let both = sym e ∙ ap (get_elem? (order track states)) here ∙ e' in cc,
          λ same. ap (λ h. position_of new h) same,
        ),
      )

  -- After `update_positions_and_drs`, on floats whose `<` is a strict order: of two cars at
  -- neighbouring positions, the one behind has not come further than the one in front.
  neighbours_ordered :
      (laws : IsOrdered F) (track : TrackProfile F) (states : List (DriverState F)) (i j : ℕ)
      → i < length states
      → j < length states
      → (state_of (update_positions_and_drs track states) j).position
        ≡ suc (state_of (update_positions_and_drs track states) i).position
      → ahead track (update_positions_and_drs track states) j i ≡ false
  neighbours_ordered laws track states i j l m next =
      let (k, e, at, _) = at_position track states i l in
      let (n, e', at', _) = at_position track states j m in
      let here : n ≡ suc k = omega (arith, at, at', next) in
      let before = stable_sort-Sorted (ahead track states) (λ a b. lt_asymm laws _ _) _ in
      let sorted =
        Sorted-get_elem? (ahead track states) (order track states) k i j before e
          (ap (get_elem? (order track states)) (sym here) ∙ e') in
      ap₂ f.lt (same i) (same j) ∙ sorted
    where
      same :
          (h : ℕ)
          → race_distance track (state_of (update_positions_and_drs track states) h)
            ≡ race_distance track (state_of states h)
      same h =
          ap (λ s. race_distance track (state_of s h)) (update-placed track states)
          ∙ placed-distance track (order track states) states h

  -- After `update_positions_and_drs`, on floats whose `<` is a strict order: every car has a position
  -- from 1 to the number of cars, two cars have the same position only if they are the same car, and of
  -- two cars at neighbouring positions the one behind has not come further than the one in front, by
  -- laps times the length of the track plus the distance in the lap.
  pub update_positions_and_drs_lem :
      (laws : IsOrdered F) (track : TrackProfile F) (states : List (DriverState F)) (i j : ℕ)
      → i < length states
      → j < length states
      → let new = update_positions_and_drs track states in
        let front = state_of new i in
        let behind = state_of new j in
        (1 ≤ front.position)
        × (front.position ≤ length states)
        × ((front.position ≡ behind.position) ↔ (i ≡ j))
        × ((behind.position ≢ suc front.position)
            ⊎ (f.lt
                  (f.of_ℕ front.latest_frame.lap *ᶠ track.length_km +ᶠ front.distance_in_lap)
                  (f.of_ℕ behind.latest_frame.lap *ᶠ track.length_km +ᶠ behind.distance_in_lap)
                ≡ false))
  update_positions_and_drs_lem laws track states i j l m =
      let new = update_positions_and_drs track states in
      let (low, high, same) = positions_injective track states i j l m in
      (
        low,
        high,
        same,
        elim (ℕ_discrete (state_of new j).position (suc (state_of new i).position)) [
          | yes next ↦ inr (neighbours_ordered laws track states i j l m next)
          | no apart ↦ inl apart
        ],
      )
