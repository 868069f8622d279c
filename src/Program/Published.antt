-- ===== src/Program/Published.antt =====
-- The standings that the callback of src/main.cpp publishes, from `update_positions_and_drs` of
-- src/simulation/telemetry_generator.cpp to the readers of src/common/leaderboard.h.
pub mod Rising
use formula_one_telemetry_si.Prelude.{
  ℕ, zero, suc, ◌-◌, ltb, ap₂, ◌≤◌, ◌<◌, ◌≡◌, refl, sym, true, false, none, some, List, [], ◌∷◌,
  All, if-both, arith, ap, ◌∙◌, length, get_or, get_elem?, ==_iff, ◌⊎◌, inl, inr,
}
use formula_one_telemetry_si.Prelude.Int.{pos}
use formula_one_telemetry_si.Prelude.Forall.{All-get_or}
use mathlib.Core.Path.{subst}
use formula_one_telemetry_si.Floats.{Floats}
use formula_one_telemetry_si.Types.{DriverState, TrackProfile, blank_state}
use formula_one_telemetry_si.Leaderboard.{
  Leaderboard, update, size, snapshot, at_position, is_at, find_position,
}
use formula_one_telemetry_si.Telemetry.Positions.{state_of, update_positions_and_drs}
use formula_one_telemetry_si.Telemetry.Positions.Sort.{
  Found, stable_sort-Found, All-stable_sort, length-stable_sort,
}
use formula_one_telemetry_si.Telemetry.Positions.Ranks.{update-length}
use formula_one_telemetry_si.Telemetry.Positions.Standings.{positions_injective, holder_of}
use formula_one_telemetry_si.Program.Published.Rising.{
  Covers, Apart-get_or, Apart, stable_sort-Rising, Rising-get_elem?,
}
use formula_one_telemetry_si.Program.{sorted_by_position}

update-standings :
    {F : Type 0} (b : Leaderboard F) (tid : ℕ) (states : List (DriverState F))
    (board : Leaderboard F)
    → update b tid states ≡ some board
    → board.standings ≡ states
unfolding update
update-standings b tid states board e = ground arith

get_or-Found : {A : Type 0} (d : A) (xs : List A) (i : ℕ) → i < length xs → Found (get_or xs i d) xs
get_or-Found d [] i l = elim l [ ]
get_or-Found d (x ∷ xs) zero l = (0, refl)
get_or-Found d (x ∷ xs) (suc i) l = let (k, e) = get_or-Found d xs i (omega arith) in (suc k, e)

module _ {F : Type 0} ⦃f : Floats F⦄ where
  -- A state of the list is found by its position, where no other has the same.
  find_position-Found :
      (now : ℕ) (s : DriverState F) (xs : List (DriverState F)) (k : ℕ)
      → get_elem? xs k ≡ some s
      → All (λ t. t.position ≡ s.position → t ≡ s) xs
      → find_position now (pos s.position) xs ≡ s
  unfolding find_position
  find_position-Found now s [] k e a = cc
  find_position-Found now s (x ∷ xs) zero e a =
      let same : x ≡ s = cc in
      let here = (==_iff x.position s.position).1 (ap (λ (t : DriverState F). t.position) same) in
      if-both (λ r. r ≡ s) (is_at (pos s.position) x) (λ _. same) (λ off. cc)
  find_position-Found now s (x ∷ xs) (suc k) e a =
      if-both (λ r. r ≡ s) (is_at (pos s.position) x)
        (λ at. a.0 ((==_iff x.position s.position).0 at))
        (λ off. find_position-Found now s xs k e a.1)

  find_position-none :
      (now n : ℕ) (xs : List (DriverState F))
      → All (λ t. is_at (pos n) t ≡ false) xs
      → find_position now (pos n) xs ≡ blank_state now
  unfolding find_position
  find_position-none now n [] a = refl
  find_position-none now n (x ∷ xs) a =
      if-both (λ r. r ≡ blank_state now) (is_at (pos n) x) (λ at. cc)
        (λ off. find_position-none now n xs a.1)

  module _ (track : TrackProfile F) (states : List (DriverState F)) where
    abbrev ranked : List (DriverState F)
    ranked = update_positions_and_drs track states

    -- What holds of every car after `update_positions_and_drs` holds of the sorted states.
    All-sorted :
        (P : DriverState F → Type 0)
        → ((j : ℕ) → j < length states → P (state_of ranked j))
        → All P (sorted_by_position ranked)
    All-sorted P h = All-stable_sort _ P ranked (
        All-get_or P (blank_state 0) ranked
          (λ j l. h j (subst (λ n. j < n) (update-length track states) l)))

    sorted-Found :
        (i : ℕ) → i < length states → Found (state_of ranked i) (sorted_by_position ranked)
    sorted-Found i l = stable_sort-Found _ (state_of ranked i) ranked (
        get_or-Found (blank_state 0) ranked i
          (subst (λ n. i < n) (sym (update-length track states)) l))

    nobody :
        (n j : ℕ)
        → j < length states
        → (n ≡ 0) ⊎ (length states < n)
        → is_at (pos n) (state_of ranked j) ≡ false
    nobody n j m out =
        let (low, high, _) = positions_injective track states j j m m in
        ground (arith, ==_iff (state_of ranked j).position n)

    ranked-Apart : Apart ranked
    ranked-Apart = Apart-get_or (blank_state 0) ranked (λ i j l m same.
        let size = update-length track states in
        (positions_injective track states i j (omega (arith, l, size)) (omega (arith, m, size))).2.0
          same)

    sorted-Covers : Covers 0 (sorted_by_position ranked)
    sorted-Covers zero l h = absurd (omega arith)
    sorted-Covers (suc k) l h =
        let sorted_size = length-stable_sort (λ a b. ltb a.position b.position) ranked in
        let size = update-length track states in
        let (i, less, at) = holder_of track states k (omega (arith, h, sorted_size, size)) in
        (state_of ranked i, sorted-Found i less, at)

    -- The sorted states have the positions 1, 2, 3 and so on.
    sorted-position :
        (k : ℕ) (s : DriverState F)
        → get_elem? (sorted_by_position ranked) k ≡ some s
        → s.position ≡ suc k
    sorted-position k s e =
        Rising-get_elem? 0 (sorted_by_position ranked) k s (stable_sort-Rising ranked ranked-Apart)
          (All-sorted (λ t. 0 < t.position) (λ j m. (positions_injective track states j j m m).0))
          sorted-Covers e
        ∙ omega arith

    -- Once the states have been published as the callback does, after `update_positions_and_drs`: the
    -- leaderboard has as many drivers as there are cars, a car at position `k + 1` stands at index `k`
    -- of the standings, a reader that asks for the position of a car gets that car's state, and one
    -- that asks for a position that is 0 or above the number of cars gets a blank state.
    pub published_lem :
        (b : Leaderboard F) (tid : ℕ) (board : Leaderboard F) (now i n : ℕ)
        → update b tid (sorted_by_position (update_positions_and_drs track states)) ≡ some board
        → i < length states
        → (n ≡ 0) ⊎ (length states < n)
        → let s = state_of (update_positions_and_drs track states) i in
          (size board ≡ length states)
          × (get_elem? (snapshot board) (s.position - 1) ≡ some s)
          × (at_position board now (pos s.position) ≡ s)
          × (at_position board now (pos n) ≡ blank_state now)
    published_lem b tid board now i n e l out =
        let shown = update-standings b tid _ board e in
        let s = state_of ranked i in
        let (k, at) = sorted-Found i l in
        let place : k ≡ s.position - 1 = omega (arith, sorted-position k s at) in
        (
          ap length shown ∙ length-stable_sort _ ranked ∙ update-length track states,
          ap₂ get_elem? shown (sym place) ∙ at,
          ap (find_position now (pos s.position)) shown
              ∙ find_position-Found now s (sorted_by_position ranked) k at (
                  All-sorted (λ t. t.position ≡ s.position → t ≡ s)
                    (λ j m same.
                      ap (state_of ranked) ((positions_injective track states j i m l).2.0 same))),
          ap (find_position now (pos n)) shown
              ∙ find_position-none now n (sorted_by_position ranked)
                  (All-sorted (λ t. is_at (pos n) t ≡ false) (λ j m. nobody n j m out)),
        )
