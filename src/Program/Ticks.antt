-- ===== src/Program/Ticks.antt =====
-- The callback as a whole.
use formula_one_telemetry_si.Prelude.{
  ℕ, suc, ◌<◌, ◌≡◌, refl, none, some, List, length, ◌⊎◌, inl, inr, ==_iff,
}
use formula_one_telemetry_si.Floats.{Floats}
use formula_one_telemetry_si.Types.{DriverState, RaceControlEvent}
use formula_one_telemetry_si.Queue.{FifoQueue}
use formula_one_telemetry_si.Leaderboard.{Leaderboard, update}
use formula_one_telemetry_si.Penalty.History
use formula_one_telemetry_si.Penalty.Enforcer.{history, process_events_runs}
use formula_one_telemetry_si.Program.{Program, after_tick, on_tick, sorted_by_position}

pub update_claims :
    {F : Type 0} (b : Leaderboard F) (tid : ℕ) (states : List (DriverState F))
    → (b.writer_id ≡ none) ⊎ (b.writer_id ≡ some tid)
    → update b tid states ≡ some (record { standings = states; writer_id = some tid })
unfolding update
update_claims b tid states (inl e) = rw e refl
update_claims b tid states (inr e) = let same = (==_iff tid tid).1 refl in rw (e, same) refl

module _ {F : Type 0} ⦃f : Floats F⦄ {Q : Type 0} (queue : FifoQueue Q RaceControlEvent) where
  open queue use {Holds}

  -- Where no other thread has written the leaderboard, and with more fuel than events in the queue:
  -- the callback returns; it has published the states by position, set the lap, handled every event
  -- that was queued, in order, and left in the queue exactly the penalties that it announced.
  pub on_tick_returns :
      (fuel : ℕ) (clock : ℕ → ℕ) (tid race_lap : ℕ) (states : List (DriverState F))
      (p : Program F Q) (xs : List RaceControlEvent)
      → (p.leaderboard.writer_id ≡ none) ⊎ (p.leaderboard.writer_id ≡ some tid)
      → Holds p.penalty.events xs
      → length xs < fuel
      → let (slots, pushed) = History.run F p.penalty.slots (history clock 0 xs) in
        (p' : Program F Q) × (on_tick queue fuel clock tid race_lap states p ≡ some p')
        × (p'.leaderboard ≡ record { standings = sorted_by_position states; writer_id = some tid })
        × (p'.race_state.current_lap ≡ race_lap)
        × (p'.tick_counter ≡ suc p.tick_counter)
        × (p'.penalty.slots ≡ slots)
        × Holds p'.penalty.events pushed
  unfolding on_tick
  on_tick_returns fuel clock tid race_lap states p xs writer h l =
      let (e, runs, slots, held) = process_events_runs F queue fuel clock p.penalty xs h l in
      let claimed = update_claims p.leaderboard tid (sorted_by_position states) writer in
      let board : Leaderboard F = record {
        standings = sorted_by_position states;
        writer_id = some tid;
      } in
      (
        after_tick race_lap states board e p,
        rw (claimed, on_tick, runs) refl,
        refl,
        refl,
        refl,
        slots,
        held,
      )
