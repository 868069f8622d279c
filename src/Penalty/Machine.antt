-- ===== src/Penalty/Machine.antt =====
-- The state machine of one driver's penalty, and what each operation does to each driver's entries.
use formula_one_telemetry_si.Prelude.{
  ℕ, ◌+◌, ◌%◌, ◌^◌, ◌≤◌, ◌<◌, ◌≡◌, refl, Bool, true, ◌&&◌, Option, none, some, ◌==◌, if◌then◌else◌,
  length, length-set, get_or-set, arith, Bool-cases, inl, inr, ◌⊎◌,
}
use formula_one_telemetry_si.Prelude.Int.{ℤ, pos, negsuc}
use formula_one_telemetry_si.Prelude.Text.{Text, until_nul}
use formula_one_telemetry_si.Floats.{Floats}
use formula_one_telemetry_si.Types.{PenaltyState, RaceControlEvent, same_state}
use formula_one_telemetry_si.Season.{driver_index_of}
use formula_one_telemetry_si.Season.Lookup.{driver_index_of-lt}
use formula_one_telemetry_si.Penalty.{
  Slots, start, state_at, warnings_at, is_track_limits, penalty_event, exchange, warn, driver_index,
  handle, exchange_for, driver_entered_pits, driver_exited_pits,
}

pub record IsSized (s : Slots) : Type 0 where
  pub warnings_size : length s.warnings ≡ 20
  pub states_size : length s.states ≡ 20
  pub extra_size : length s.extra_pit_time ≡ 20

pub start-IsSized : IsSized start
start-IsSized = record { warnings_size = refl; states_size = refl; extra_size = refl }

-- What `warn` leaves in the entries of a driver `j`.
abbrev pub third : Slots → ℕ → Bool
third s i = (warnings_at s i + 1) % 2 ^ 32 == 3

abbrev pub fresh : Slots → ℕ → Bool
fresh s i = same_state (state_at s i) PenaltyState.none

pub warn-IsSized :
    (now : ℕ) (s : Slots) (e : RaceControlEvent) (i : ℕ) → IsSized s → IsSized (warn now s e i).0
unfolding warn
warn-IsSized now s e i v = ground (
  arith,
  length-set s.warnings i ((warnings_at s i + 1) % 2 ^ 32),
  length-set s.states i PenaltyState.pending,
  length-set s.extra_pit_time i 3,
)

pub warn-warnings :
    (now : ℕ) (s : Slots) (e : RaceControlEvent) (i j : ℕ)
    → IsSized s
    → i < 20
    → warnings_at (warn now s e i).0 j
      ≡ (if i == j then (warnings_at s i + 1) % 2 ^ 32 else warnings_at s j)
unfolding warn
warn-warnings now s e i j v l =
    ground (arith, get_or-set s.warnings i j ((warnings_at s i + 1) % 2 ^ 32) 0)

pub warn-states :
    (now : ℕ) (s : Slots) (e : RaceControlEvent) (i j : ℕ)
    → IsSized s
    → i < 20
    → state_at (warn now s e i).0 j
      ≡ (if (i == j) && (third s i && fresh s i) then PenaltyState.pending else state_at s j)
unfolding warn
warn-states now s e i j v l =
    ground (arith, get_or-set s.states i j PenaltyState.pending PenaltyState.none)

pub warn-pushed :
    (now : ℕ) (s : Slots) (e : RaceControlEvent) (i : ℕ)
    → (warn now s e i).1 ≡ (if third s i && fresh s i then some (penalty_event now e) else none)
unfolding warn
warn-pushed now s e i = ground arith

exchange-IsSized :
    (s : Slots) (i : ℕ) (a b : PenaltyState) → IsSized s → IsSized (exchange s i a b).0
unfolding exchange
exchange-IsSized s i a b v = ground (arith, length-set s.states i b)

exchange-states :
    (s : Slots) (i j : ℕ) (a b : PenaltyState)
    → IsSized s
    → i < 20
    → state_at (exchange s i a b).0 j
      ≡ (if (i == j) && same_state (state_at s i) a then b else state_at s j)
unfolding exchange
exchange-states s i j a b v l = ground (arith, get_or-set s.states i j b PenaltyState.none)

-- What is done to the object: an event of a batch at a time, or a call about the pits.
pub data Action : Type 0 where
  event : (now : ℕ) (e : RaceControlEvent) → Action
  entered : (id : Text) → Action
  exited : (id : Text) → Action

-- The moves of a penalty, and the action that makes each.
pub data Move : Action → PenaltyState → PenaltyState → Type 0 where
  stay : {a : Action} (p : PenaltyState) → Move a p p
  issue :
      {now : ℕ} {e : RaceControlEvent} → Move (event now e) PenaltyState.none PenaltyState.pending
  serve : {id : Text} → Move (entered id) PenaltyState.pending PenaltyState.serving
  finish : {id : Text} → Move (exited id) PenaltyState.serving PenaltyState.served

-- How far a penalty has come.
abbrev pub rank : PenaltyState → ℕ
rank PenaltyState.none = 0
rank PenaltyState.pending = 1
rank PenaltyState.serving = 2
rank PenaltyState.served = 3

pub Move-rank : {a : Action} {p q : PenaltyState} → Move a p q → rank p ≤ rank q
Move-rank (stay p) = omega arith
Move-rank issue = omega arith
Move-rank serve = omega arith
Move-rank finish = omega arith

same_state-eq : (p q : PenaltyState) → same_state p q ≡ true → p ≡ q
unfolding same_state
same_state-eq p q h = ground arith

-- An exchange at the index `i` moves the state at `j` along its arrow, or not at all.
exchange_if :
    {a : Action} {p q : PenaltyState} (m : Move a p q) (s : Slots) (i j : ℕ) (t : Bool)
    → Move a
        (state_at s j)
        (if (i == j) && (t && same_state (state_at s i) p) then q else state_at s j)
exchange_if {a} {p} {q} m s i j t =
    elim (Bool-cases ((i == j) && (t && same_state (state_at s i) p))) [
      | inl won ↦
          let here : state_at s j ≡ p = ground (arith, same_state-eq (state_at s i) p) in
          rw (won, here) m
      | inr lost ↦ rw lost (stay (state_at s j))
    ]

module _ (F : Type 0) ⦃f : Floats F⦄ where
  unfoldable pub act : Slots → Action → Slots × Option RaceControlEvent
  act s (event now e) = handle F now s e
  act s (entered id) = (driver_entered_pits F s id, none)
  act s (exited id) = (driver_exited_pits F s id, none)

  index_lt : (id : Text) (i : ℕ) → driver_index F id ≡ pos i → i < 20
  unfolding driver_index driver_index_of
  index_lt id i e = driver_index_of-lt F id i e

  -- An id is that of a driver of the table, or of none.
  pub driver_index-cases :
      (id : Text)
      → ((i : ℕ) × (driver_index F id ≡ pos i) × (i < 20))
        ⊎ ((k : ℕ) × (driver_index F id ≡ negsuc k))
  driver_index-cases id = go (driver_index F id) refl
    where
      go :
          (z : ℤ)
          → driver_index F id ≡ z
          → ((i : ℕ) × (driver_index F id ≡ pos i) × (i < 20))
            ⊎ ((k : ℕ) × (driver_index F id ≡ negsuc k))
      go (pos i) e = inl (i, e, index_lt id i e)
      go (negsuc k) e = inr (k, e)

  pub act-IsSized : (s : Slots) (a : Action) → IsSized s → IsSized (act s a).0
  unfolding act handle driver_entered_pits driver_exited_pits
  act-IsSized s (event now e) v = elim (Bool-cases (is_track_limits e.type)) [
    | inl yes_limits ↦ elim (driver_index-cases (until_nul e.driver_id)) [
      | inl (i, at, l) ↦ rw (yes_limits, at) (warn-IsSized now s e i v)
      | inr (k, at) ↦ rw (yes_limits, at) v
    ]
    | inr other ↦ rw other v
  ]
  act-IsSized s (entered id) v = elim (driver_index-cases id) [
    | inl (i, at, l) ↦
        rw (at, exchange_for) (exchange-IsSized s i PenaltyState.pending PenaltyState.serving v)
    | inr (k, at) ↦ rw (at, exchange_for) v
  ]
  act-IsSized s (exited id) v = elim (driver_index-cases id) [
    | inl (i, at, l) ↦
        rw (at, exchange_for) (exchange-IsSized s i PenaltyState.serving PenaltyState.served v)
    | inr (k, at) ↦ rw (at, exchange_for) v
  ]

  warn-Move :
      (now : ℕ) (s : Slots) (e : RaceControlEvent) (i j : ℕ)
      → IsSized s
      → i < 20
      → Move (event now e) (state_at s j) (state_at (warn now s e i).0 j)
  warn-Move now s e i j v l = rw (warn-states now s e i j v l) (exchange_if issue s i j (third s i))

  exchange-Move :
      {a : Action} {p q : PenaltyState} (m : Move a p q) (s : Slots) (i j : ℕ)
      → IsSized s
      → i < 20
      → Move a (state_at s j) (state_at (exchange s i p q).0 j)
  exchange-Move {p} {q} m s i j v l = rw (exchange-states s i j p q v l) (exchange_if m s i j true)

  -- On arrays of twenty entries, every action moves the penalty of every driver along at most one
  -- arrow of the machine, and the
  -- arrow is one of that action: an event issues, a pit entry serves, a pit exit finishes.
  pub act-Move :
      (s : Slots) (a : Action) (j : ℕ) → IsSized s → Move a (state_at s j) (state_at (act s a).0 j)
  unfolding act handle driver_entered_pits driver_exited_pits
  act-Move s (event now e) j v = elim (Bool-cases (is_track_limits e.type)) [
    | inl counts ↦ elim (driver_index-cases (until_nul e.driver_id)) [
      | inl (i, at, l) ↦ rw (counts, at) (warn-Move now s e i j v l)
      | inr (k, at) ↦ rw (counts, at) (stay (state_at s j))
    ]
    | inr other ↦ rw other (stay (state_at s j))
  ]
  act-Move s (entered id) j v = elim (driver_index-cases id) [
    | inl (i, at, l) ↦ rw (at, exchange_for) (exchange-Move serve s i j v l)
    | inr (k, at) ↦ rw (at, exchange_for) (stay (state_at s j))
  ]
  act-Move s (exited id) j v = elim (driver_index-cases id) [
    | inl (i, at, l) ↦ rw (at, exchange_for) (exchange-Move finish s i j v l)
    | inr (k, at) ↦ rw (at, exchange_for) (stay (state_at s j))
  ]
