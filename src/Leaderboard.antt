-- ===== src/Leaderboard.antt =====
-- src/common/leaderboard.h: the standings behind a lock. Each call holds the lock to its end, so a
-- call is one step; a thread is a number, and `none` stands for no thread.
pub mod Readers
use formula_one_telemetry_si.Prelude.{
  ℕ, Bool, true, false, ◌&&◌, Option, none, some, List, [], ◌∷◌, ◌==◌, if◌then◌else◌, length,
}
use formula_one_telemetry_si.Prelude.Int.{ℤ, pos, negsuc}
use formula_one_telemetry_si.Prelude.Text.{Text}
use formula_one_telemetry_si.Floats.{Floats}
use formula_one_telemetry_si.Types.{DriverState, blank_state, zero_f}

pub record Leaderboard (F : Type 0) : Type 0 where
  pub standings : List (DriverState F)
  pub writer_id : Option ℕ

abbrev pub empty : {F : Type 0} → Leaderboard F
empty = record { standings = []; writer_id = none }

module _ {F : Type 0} where
  -- `update` by the thread `tid`; `none` is the exception.
  unfoldable pub update : Leaderboard F → ℕ → List (DriverState F) → Option (Leaderboard F)
  update b tid sorted_standings = elim b.writer_id [
    | none ↦ some (record { standings = sorted_standings; writer_id = some tid })
    | some writer ↦
        if writer == tid
        then some (record { standings = sorted_standings; writer_id = some writer })
        else none
  ]

  abbrev pub snapshot : Leaderboard F → List (DriverState F)
  snapshot b = b.standings

  abbrev pub size : Leaderboard F → ℕ
  size b = length b.standings

module _ {F : Type 0} ⦃f : Floats F⦄ where
  -- Whether an `int` is the position of a state.
  abbrev pub is_at : ℤ → DriverState F → Bool
  is_at (pos n) s = s.position == n
  is_at (negsuc _) s = false

  -- The loop of `at_position`; a blank state, made at the time `now`, where no driver matches.
  unfoldable pub find_position : ℕ → ℤ → List (DriverState F) → DriverState F
  find_position now p [] = blank_state now
  find_position now p (s ∷ rest) = if is_at p s then s else find_position now p rest

  abbrev pub at_position : Leaderboard F → ℕ → ℤ → DriverState F
  at_position b now p = find_position now p b.standings

  -- A lap that has been set, and is better than `best`.
  abbrev pub improves : F → DriverState F → Bool
  improves best s = f.lt zero_f s.best_lap_ms && f.lt s.best_lap_ms best

  -- The loop of `fastest_lap_holder`.
  unfoldable pub best_from : F → Text → List (DriverState F) → Text
  best_from best holder [] = holder
  best_from best holder (s ∷ rest) =
      if improves best s
      then best_from s.best_lap_ms s.profile.id rest
      else best_from best holder rest

  abbrev pub fastest_lap_holder : Leaderboard F → Text
  fastest_lap_holder b = best_from f.largest [] b.standings
