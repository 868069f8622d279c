-- ===== src/Telemetry/Positions/Ranks.antt =====
-- The positions that `update_positions_and_drs` gives out.
use formula_one_telemetry_si.Prelude.{
  ℕ, zero, suc, ◌+◌, ◌<◌, ◌≡◌, ◌≢◌, refl, sym, Bool, false, List, [], ◌∷◌, All, some, if◌then◌else◌,
  ◌==◌, arith, ap, ◌∙◌, length, length-set, set, get_elem?, get_or-set_ne, get_or-set_self,
  get_or-set_image,
}
use mathlib.Core.Path.{subst}
use formula_one_telemetry_si.Floats.{Floats}
use formula_one_telemetry_si.Types.{DriverState, TrackProfile, blank_state, zero_f}
use formula_one_telemetry_si.Telemetry.Positions.{
  state_of, race_distance, ahead, gap_between, with_place, with_drs, assign, assign_drs, order,
  update_positions_and_drs,
}
use formula_one_telemetry_si.Telemetry.Positions.Sort.{
  iota, Distinct, Found, iota-Distinct, iota-Found, All-iota, All-stable_sort, stable_sort-Distinct,
  stable_sort-Found, length-stable_sort, length-iota,
}

module _ {F : Type 0} ⦃f : Floats F⦄ where
  abbrev pub position_of : List (DriverState F) → ℕ → ℕ
  position_of states i = (state_of states i).position

  -- What a new place and a new flag leave alone, `assign` and `assign_drs` leave alone.
  module _ {B : Type 0} (p : DriverState F → B)
      (flags : (b : Bool) (s : DriverState F) → p (with_drs b s) ≡ p s) where
    assign_drs-image :
        (prev : ℕ) (is : List ℕ) (states : List (DriverState F)) (j : ℕ)
        → p (state_of (assign_drs prev is states) j) ≡ p (state_of states j)
    unfolding assign_drs
    assign_drs-image prev [] states j = refl
    assign_drs-image prev (i ∷ is) states j =
        assign_drs-image i is _ j
        ∙ get_or-set_image p (with_drs _) states i j (blank_state 0) (flags _)

    assign-image :
        ((n : ℕ) (gap : F) (s : DriverState F) → p (with_place n gap s) ≡ p s)
        → (track : TrackProfile F) (first n : ℕ) (is : List ℕ) (states : List (DriverState F))
          (j : ℕ)
        → p (state_of (assign track first n is states) j) ≡ p (state_of states j)
    unfolding assign
    assign-image places track first n [] states j = refl
    assign-image places track first n (i ∷ is) states j =
        let s = state_of states i in
        let gap = if n == 0 then zero_f else gap_between track (state_of states first) s in
        assign-image places track first (suc n) is _ j
        ∙ get_or-set_image p (with_place (suc n) gap) states i j (blank_state 0)
            (places (suc n) gap)

  -- Cars that are not in the list keep their position.
  assign-other :
      (track : TrackProfile F) (first p : ℕ) (is : List ℕ) (states : List (DriverState F)) (j : ℕ)
      → All (λ i. j ≢ i) is
      → position_of (assign track first p is states) j ≡ position_of states j
  unfolding assign
  assign-other track first p [] states j a = refl
  assign-other track first p (i ∷ is) states j a =
      assign-other track first (suc p) is _ j a.1
      ∙ ap (λ (s : DriverState F). s.position)
          (get_or-set_ne states i j _ (blank_state 0) (λ e. a.0 (sym e)))

  assign-placed :
      (track : TrackProfile F) (first p : ℕ) (is : List ℕ) (states : List (DriverState F)) (k j : ℕ)
      → Distinct is
      → All (λ i. i < length states) is
      → get_elem? is k ≡ some j
      → position_of (assign track first p is states) j ≡ suc (p + k)
  unfolding assign
  assign-placed track first p [] states k j d a e = cc
  assign-placed track first p (i ∷ is) states zero j d a e =
      let same : i ≡ j = cc in
      subst (λ x. position_of (assign track first p (i ∷ is) states) x ≡ suc (p + 0)) same
        (assign-other track first (suc p) is _ i d.0
          ∙ ap (λ (s : DriverState F). s.position) (get_or-set_self states i _ (blank_state 0) a.0)
          ∙ ap suc (omega arith))
  assign-placed track first p (i ∷ is) states (suc k) j d a e =
      let kept = sym (length-set states i _) in
      assign-placed track first (suc p) is _ k j d.1 (subst (λ n. All (λ i. i < n) is) kept a.1) e
      ∙ omega arith

  assign-size :
      (track : TrackProfile F) (first p : ℕ) (is : List ℕ) (states : List (DriverState F))
      → length (assign track first p is states) ≡ length states
  unfolding assign
  assign-size track first p [] states = refl
  assign-size track first p (i ∷ is) states =
      assign-size track first (suc p) is _ ∙ length-set states i _

  pub order-Distinct :
      (track : TrackProfile F) (states : List (DriverState F)) → Distinct (order track states)
  order-Distinct track states =
      stable_sort-Distinct (ahead track states) _ (iota-Distinct 0 (length states))

  pub order-below :
      (track : TrackProfile F) (states : List (DriverState F))
      → All (λ i. i < length states) (order track states)
  order-below track states =
      All-stable_sort (ahead track states) (λ i. i < length states) _
        (All-iota 0 (length states) (λ i l r. omega arith))

  pub order-length :
      (track : TrackProfile F) (states : List (DriverState F))
      → length (order track states) ≡ length states
  order-length track states =
      length-stable_sort (ahead track states) _ ∙ length-iota 0 (length states)

  pub order-Found :
      (track : TrackProfile F) (states : List (DriverState F)) (i : ℕ)
      → i < length states
      → Found i (order track states)
  order-Found track states i l =
      let same : 0 + i ≡ i = omega arith in
      stable_sort-Found (ahead track states) i _
        (subst (λ j. Found j (iota 0 (length states))) same (iota-Found 0 (length states) i l))

  -- Against any list of cars, as `update_positions_and_drs` splits it.
  abbrev pub placed : TrackProfile F → List ℕ → List (DriverState F) → List (DriverState F)
  placed track [] states = states
  placed track (first ∷ rest) states =
      let after = assign track first 0 (first ∷ rest) states in
      assign_drs first rest (set after first (with_drs false (state_of after first)))

  pub placed-position :
      (track : TrackProfile F) (is : List ℕ) (states : List (DriverState F)) (k i : ℕ)
      → Distinct is
      → All (λ i. i < length states) is
      → get_elem? is k ≡ some i
      → position_of (placed track is states) i ≡ suc k
  placed-position track [] states k i d a e = cc
  placed-position track (first ∷ rest) states k i d a e =
      let after = assign track first 0 (first ∷ rest) states in
      assign_drs-image (λ s. s.position) (λ _ _. refl) first rest _ i
      ∙ get_or-set_image (λ (s : DriverState F). s.position) (with_drs false) after first i
          (blank_state 0) (λ _. refl)
      ∙ assign-placed track first 0 (first ∷ rest) states k i d a e
      ∙ ap suc (omega arith)

  pub placed-distance :
      (track : TrackProfile F) (is : List ℕ) (states : List (DriverState F)) (i : ℕ)
      → race_distance track (state_of (placed track is states) i)
        ≡ race_distance track (state_of states i)
  placed-distance track [] states i = refl
  placed-distance track (first ∷ rest) states i =
      let after = assign track first 0 (first ∷ rest) states in
      assign_drs-image (race_distance track) (λ _ _. refl) first rest _ i
      ∙ get_or-set_image (race_distance track) (with_drs false) after first i (blank_state 0)
          (λ _. refl)
      ∙ assign-image (race_distance track) (λ _ _. refl) (λ _ _ _. refl) track first 0
          (first ∷ rest) states i

  pub update-placed :
      (track : TrackProfile F) (states : List (DriverState F))
      → update_positions_and_drs track states ≡ placed track (order track states) states
  unfolding update_positions_and_drs
  update-placed track states = go (order track states)
    where
      go :
          (is : List ℕ)
          → elim is as (λ _. List (DriverState F)) [
            | [] ↦ states
            | first ∷ rest ↦
                let after = assign track first 0 (first ∷ rest) states in
                assign_drs first rest (set after first (with_drs false (state_of after first)))
          ]
            ≡ placed track is states
      go [] = refl
      go (first ∷ rest) = refl

  assign_drs-length :
      (prev : ℕ) (is : List ℕ) (states : List (DriverState F))
      → length (assign_drs prev is states) ≡ length states
  unfolding assign_drs
  assign_drs-length prev [] states = refl
  assign_drs-length prev (i ∷ is) states = assign_drs-length i is _ ∙ length-set states i _

  placed-length :
      (track : TrackProfile F) (is : List ℕ) (states : List (DriverState F))
      → length (placed track is states) ≡ length states
  placed-length track [] states = refl
  placed-length track (first ∷ rest) states =
      assign_drs-length first rest _
      ∙ length-set (assign track first 0 (first ∷ rest) states) first _
      ∙ assign-size track first 0 (first ∷ rest) states

  pub update-length :
      (track : TrackProfile F) (states : List (DriverState F))
      → length (update_positions_and_drs track states) ≡ length states
  update-length track states =
      ap length (update-placed track states) ∙ placed-length track (order track states) states
