-- ===== src/Penalty.antt =====
-- src/race_control/penalty_enforcer.h and penalty_enforcer.cpp: warnings and penalties per driver.
-- The three arrays of atomics are `Slots`; a warning counter is the bit pattern of its `int`, and
-- wraps. The clock is an argument, one reading for each event that is announced.
pub mod Machine
pub mod Tracks
pub mod History
pub mod Enforcer
use formula_one_telemetry_si.Prelude.{
  ℕ, suc, ◌+◌, ◌%◌, ◌^◌, Bool, true, false, Option, none, some, List, [], ◌∷◌, ◌++◌, ◌==◌,
  if◌then◌else◌, get_or, set, replicate,
}
use formula_one_telemetry_si.Prelude.Int.{ℤ, pos, negsuc}
use formula_one_telemetry_si.Prelude.Text.{Text, codes, until_nul, memcpy}
use formula_one_telemetry_si.Floats.{Floats}
use formula_one_telemetry_si.Types.{PenaltyState, EventType, RaceControlEvent, no_id, same_state}
use formula_one_telemetry_si.Season.{drivers, index_from}
use formula_one_telemetry_si.Queue.{FifoQueue, drain}

-- The three arrays, one entry per driver in the order of the season's table.
pub record Slots : Type 0 where
  pub warnings : List ℕ
  pub states : List PenaltyState
  pub extra_pit_time : List ℕ

abbrev pub start : Slots
start = record {
  warnings = replicate 20 0;
  states = replicate 20 PenaltyState.none;
  extra_pit_time = replicate 20 0;
}

abbrev pub state_at : Slots → ℕ → PenaltyState
state_at s i = get_or s.states i PenaltyState.none

abbrev pub warnings_at : Slots → ℕ → ℕ
warnings_at s i = get_or s.warnings i 0

abbrev pub is_track_limits : EventType → Bool
is_track_limits EventType.track_limits = true
is_track_limits _ = false

-- The event of a penalty: whose it is and when.
abbrev pub penalty_event : ℕ → RaceControlEvent → RaceControlEvent
penalty_event now e = record {
  type = EventType.penalty_issued;
  driver_id = memcpy 4 e.driver_id no_id;
  lap = e.lap;
  message = until_nul e.driver_id ++ codes " - 5 second penalty (track limits)";
  timestamp = now;
}

-- `compare_exchange_strong` on the state of the driver `i`.
unfoldable pub exchange : Slots → ℕ → PenaltyState → PenaltyState → Slots × Bool
unfolding same_state
exchange s i expected desired =
    if same_state (state_at s i) expected
    then (record s { states = set s.states i desired }, true)
    else (s, false)

-- The third warning: the penalty, if the exchange is won.
unfoldable pub penalise : ℕ → Slots → RaceControlEvent → ℕ → Slots × Option RaceControlEvent
unfolding exchange
penalise now s e i =
    let (s', won) = exchange s i PenaltyState.none PenaltyState.pending in
    if won
    then (record s' { extra_pit_time = set s'.extra_pit_time i 3 }, some (penalty_event now e))
    else (s', none)

-- One more warning for the driver `i`.
unfoldable pub warn : ℕ → Slots → RaceControlEvent → ℕ → Slots × Option RaceControlEvent
unfolding penalise
warn now s e i =
    let count = (warnings_at s i + 1) % 2 ^ 32 in
    let s' = record s { warnings = set s.warnings i count } in
    if count == 3 then penalise now s' e i else (s', none)

module _ (F : Type 0) ⦃f : Floats F⦄ where
  -- `driver_index`
  unfoldable pub driver_index : Text → ℤ
  driver_index id = index_from 0 (drivers {F = F}) id

  -- The body of the loop over the batch: the event that it pushes, if any.
  unfoldable pub handle : ℕ → Slots → RaceControlEvent → Slots × Option RaceControlEvent
  handle now s e =
      if is_track_limits e.type
      then elim (driver_index (until_nul e.driver_id)) [
        | pos i ↦ warn now s e i
        | negsuc _ ↦ (s, none)
      ]
      else (s, none)

  -- The exchange of a call for one driver; an unknown id changes nothing.
  abbrev pub exchange_for : Slots → Text → PenaltyState → PenaltyState → Slots
  exchange_for s id expected desired = elim (driver_index id) [
    | pos i ↦ (exchange s i expected desired).0
    | negsuc _ ↦ s
  ]

  unfoldable pub driver_entered_pits : Slots → Text → Slots
  driver_entered_pits s id = exchange_for s id PenaltyState.pending PenaltyState.serving

  unfoldable pub driver_exited_pits : Slots → Text → Slots
  driver_exited_pits s id = exchange_for s id PenaltyState.serving PenaltyState.served

  unfoldable pub penalty_state : Slots → Text → PenaltyState
  penalty_state s id = elim (driver_index id) [
    | pos i ↦ state_at s i
    | negsuc _ ↦ PenaltyState.none
  ]

  unfoldable pub warning_count : Slots → Text → ℕ
  warning_count s id = elim (driver_index id) [ pos i ↦ warnings_at s i | negsuc _ ↦ 0 ]

-- The object: the arrays, and the queue that it shares with the other components.
pub record PenaltyEnforcer (Q : Type 0) : Type 0 where
  pub events : Q
  pub slots : Slots
  pub open slots use *

module _ (F : Type 0) ⦃f : Floats F⦄ {Q : Type 0} (queue : FifoQueue Q RaceControlEvent) where
  abbrev pub push_some : Q → Option RaceControlEvent → Q
  push_some q none = q
  push_some q (some e) = queue.push q e

  -- The loop over the batch; `clock k` is what the clock shows at the event `k`.
  unfoldable pub process_batch :
      (ℕ → ℕ) → ℕ → PenaltyEnforcer Q → List RaceControlEvent → PenaltyEnforcer Q
  process_batch clock k p [] = p
  process_batch clock k p (e ∷ es) =
      let (s, pushed) = handle F (clock k) p.slots e in
      process_batch clock (suc k) (record { events = push_some p.events pushed; slots = s }) es

  -- `fuel` bounds the rounds of the loop that empties the queue.
  unfoldable pub process_events : ℕ → (ℕ → ℕ) → PenaltyEnforcer Q → Option (PenaltyEnforcer Q)
  unfolding process_batch
  process_events fuel clock p = elim (drain queue fuel p.events) [
    | none ↦ none
    | some (batch, q) ↦ some (process_batch clock 0 (record { events = q; slots = p.slots }) batch)
  ]
