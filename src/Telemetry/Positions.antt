-- ===== src/Telemetry/Positions.antt =====
-- `update_positions_and_drs` of src/simulation/telemetry_generator.cpp: the order of the cars, their
-- positions and gaps, and who may open the rear wing. An index out of range, which the source never
-- uses, reads a blank state.
pub mod Sort
pub mod Ranks
pub mod Standings
use formula_one_telemetry_si.Prelude.{
  ℕ, zero, suc, ◌+◌, Bool, true, false, List, [], ◌∷◌, ◌==◌, if◌then◌else◌, length, get_or, set,
}
use formula_one_telemetry_si.Floats.{Floats, ◌+ᶠ◌, ◌-ᶠ◌, ◌*ᶠ◌, ◌/ᶠ◌, fmax}
use formula_one_telemetry_si.Types.{TrackProfile, DriverState, blank_state, zero_f}
use formula_one_telemetry_si.Telemetry.Positions.Sort.{stable_sort, iota}

module _ {F : Type 0} ⦃f : Floats F⦄ where
  abbrev pub state_of : List (DriverState F) → ℕ → DriverState F
  state_of states i = get_or states i (blank_state 0)

  abbrev pub race_distance : TrackProfile F → DriverState F → F
  race_distance track s = f.of_ℕ s.latest_frame.lap *ᶠ track.length_km +ᶠ s.distance_in_lap

  -- The comparison of the sort: `a` has come further than `b`.
  abbrev pub ahead : TrackProfile F → List (DriverState F) → ℕ → ℕ → Bool
  ahead track states a b =
      f.lt (race_distance track (state_of states b)) (race_distance track (state_of states a))

  -- The gap in seconds of a car behind the leader.
  abbrev pub gap_between : TrackProfile F → DriverState F → DriverState F → F
  gap_between track leader s =
      let gap_km = race_distance track leader -ᶠ race_distance track s in
      let avg_spd = (leader.latest_frame.speed_kph +ᶠ s.latest_frame.speed_kph) /ᶠ f.ratio 2 1 in
      gap_km /ᶠ fmax avg_spd (f.ratio 1 1) *ᶠ f.ratio 3600 1

  abbrev pub with_place : ℕ → F → DriverState F → DriverState F
  with_place place gap s = record s {
    position = place;
    latest_frame = record s.latest_frame { gap_to_leader = gap };
  }

  abbrev pub with_drs : Bool → DriverState F → DriverState F
  with_drs active s = record s { latest_frame = record s.latest_frame { drs_active = active } }

  -- The loop over the places from `p`, behind the car `first`.
  unfoldable pub assign :
      TrackProfile F → ℕ → ℕ → List ℕ → List (DriverState F) → List (DriverState F)
  assign track first p [] states = states
  assign track first p (i ∷ rest) states =
      let s = state_of states i in
      let gap = if p == 0 then zero_f else gap_between track (state_of states first) s in
      assign track first (suc p) rest (set states i (with_place (suc p) gap s))

  -- The loop over the cars behind `prev`.
  unfoldable pub assign_drs : ℕ → List ℕ → List (DriverState F) → List (DriverState F)
  assign_drs prev [] states = states
  assign_drs prev (i ∷ rest) states =
      let s = state_of states i in
      let gap = s.latest_frame.gap_to_leader -ᶠ (state_of states prev).latest_frame.gap_to_leader in
      assign_drs i rest (set states i (with_drs (f.lt gap (f.ratio 1 1)) s))

  -- The cars by their distance, the first in front.
  abbrev pub order : TrackProfile F → List (DriverState F) → List ℕ
  order track states = stable_sort (ahead track states) (iota 0 (length states))

  unfoldable pub update_positions_and_drs :
      TrackProfile F → List (DriverState F) → List (DriverState F)
  update_positions_and_drs track states = elim (order track states) [
    | [] ↦ states
    | first ∷ rest ↦
        let placed = assign track first 0 (first ∷ rest) states in
        assign_drs first rest (set placed first (with_drs false (state_of placed first)))
  ]
