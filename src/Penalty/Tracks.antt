-- ===== src/Penalty/Tracks.antt =====
-- How one event or pit call moves the warnings and the penalty of a driver.
use formula_one_telemetry_si.Prelude.{
  get_or, ℕ, ◌+◌, ◌^◌, ◌≤◌, ◌<◌, ◌≡◌, refl, ◌∙◌, ap, Bool, true, false, ◌&&◌, Option, none, some,
  ◌==◌, ==_iff, if◌then◌else◌, ltb, length, arith, Bool-cases, inl, inr, take, take_all, append-nil,
}
use formula_one_telemetry_si.Prelude.Int.{ℤ, pos, negsuc}
use formula_one_telemetry_si.Prelude.Text.{Text, until_nul, memcpy}
use formula_one_telemetry_si.Floats.{Floats}
use formula_one_telemetry_si.Types.{PenaltyState, EventType, RaceControlEvent, same_state, no_id}
use formula_one_telemetry_si.Penalty.{
  Slots, state_at, warnings_at, is_track_limits, warn, driver_index, handle, exchange, exchange_for,
  driver_entered_pits, driver_exited_pits,
}
use formula_one_telemetry_si.Penalty.Machine.{
  IsSized, third, fresh, warn-IsSized, warn-warnings, warn-states, warn-pushed, Action, event,
  entered, exited, act, act-IsSized, act-Move, Move, stay, serve, finish, driver_index-cases,
}

-- Whether an index is that of the driver `j`.
abbrev pub is_index : ℤ → ℕ → Bool
is_index (pos i) j = i == j
is_index (negsuc _) j = false

-- Every `driver_id` is a `char[4]`.
abbrev pub IsArray : Action → Type 0
IsArray (event now e) = length e.driver_id ≡ 4
IsArray (entered id) = Unit
IsArray (exited id) = Unit

memcpy_all : (t : Text) → length t ≡ 4 → memcpy 4 t no_id ≡ t
memcpy_all t h = append-nil (take 4 t) ∙ take_all 4 t (omega arith)

-- The events that count, and those that announce a penalty.
abbrev is_violation : EventType → Bool
is_violation EventType.track_limits = true
is_violation _ = false

abbrev is_penalty : EventType → Bool
is_penalty EventType.penalty_issued = true
is_penalty _ = false

is_violation-eq : (t : EventType) → is_violation t ≡ is_track_limits t
is_violation-eq t = ground arith

module _ (F : Type 0) ⦃f : Floats F⦄ where
  abbrev pub names : RaceControlEvent → ℕ → Bool
  names e j = is_index (driver_index F (until_nul e.driver_id)) j

  -- The track-limits events of the driver `j` in a history.
  abbrev pub violation : ℕ → Action → ℕ
  violation j (event now e) = if is_violation e.type && names e j then 1 else 0
  violation j (entered id) = 0
  violation j (exited id) = 0

  -- After `n` violations of the driver `j` and `k` announcements.
  pub record Tracks (j n k : ℕ) (s : Slots) : Type 0 where
    pub sized : IsSized s
    pub counted : warnings_at s j ≡ n
    pub before : n < 3 → state_at s j ≡ PenaltyState.none
    pub after : 3 ≤ n → same_state (state_at s j) PenaltyState.none ≡ false
    pub once : k ≡ (if ltb n 3 then 0 else 1)

  -- Whether an action announces a penalty of the driver `j`.
  abbrev pub count_one : ℕ → Option RaceControlEvent → ℕ
  count_one j none = 0
  count_one j (some e) = if is_penalty e.type && names e j then 1 else 0

  -- The penalty announced by `warn` is that of the driver who is warned.
  warn-count :
      (now : ℕ) (s : Slots) (e : RaceControlEvent) (i j : ℕ)
      → length e.driver_id ≡ 4
      → driver_index F (until_nul e.driver_id) ≡ pos i
      → count_one j (warn now s e i).1
        ≡ (if third s i && fresh s i then (if i == j then 1 else 0) else 0)
  warn-count now s e i j array at =
      rw (warn-pushed now s e i) (elim (Bool-cases (third s i && fresh s i)) [
        | inl won ↦ rw (won, memcpy_all e.driver_id array, at) refl
        | inr lost ↦ rw lost refl
      ])

  module _ (now : ℕ) (s : Slots) (e : RaceControlEvent) (i j n k : ℕ) (v : Tracks j n k s)
      (l : i < 20) (small : n + 1 < 2 ^ 32) (array : length e.driver_id ≡ 4)
      (at : driver_index F (until_nul e.driver_id) ≡ pos i) where
    same_slot : (i == j) ≡ true → (warnings_at s i ≡ n) × (state_at s i ≡ state_at s j)
    same_slot h =
        let here : i ≡ j = (==_iff i j).0 h in
        (ap (warnings_at s) here ∙ v.counted, ap (state_at s) here)

    warned : warnings_at (warn now s e i).0 j ≡ n + (if i == j then 1 else 0)
    warned = warn-warnings now s e i j v.sized l ∙ ground (arith, same_slot, v.counted)

    open_after :
        n + (if i == j then 1 else 0) < 3 → state_at (warn now s e i).0 j ≡ PenaltyState.none
    open_after h = warn-states now s e i j v.sized l ∙ ground (arith, same_slot, v.before)

    warn-Tracks :
        Tracks j
          (n + (if i == j then 1 else 0))
          (k + count_one j (warn now s e i).1)
          (warn now s e i).0
    unfolding same_state
    warn-Tracks = record {
      sized = warn-IsSized now s e i v.sized;
      counted = warned;
      before = open_after;
      after = λ h.
          rw (warn-states now s e i j v.sized l) (ground (arith, same_slot, v.before, v.after));
      once =
          rw (warn-count now s e i j array at)
            (ground (arith, same_slot, v.before, v.after, v.once));
    }

  pub keep-Tracks : (j n k : ℕ) (s : Slots) → Tracks j n k s → Tracks j (n + 0) (k + 0) s
  keep-Tracks j n k s v = record {
    sized = v.sized;
    counted = omega (arith, v.counted);
    before = λ h. v.before (omega arith);
    after = λ h. v.after (omega arith);
    once = ground (arith, v.once);
  }

  entered-fresh :
      {id : Text} {p q : PenaltyState}
      → Move (entered id) p q
      → same_state q PenaltyState.none ≡ same_state p PenaltyState.none
  unfolding same_state
  entered-fresh (stay p) = refl
  entered-fresh serve = refl

  exited-fresh :
      {id : Text} {p q : PenaltyState}
      → Move (exited id) p q
      → same_state q PenaltyState.none ≡ same_state p PenaltyState.none
  unfolding same_state
  exited-fresh (stay p) = refl
  exited-fresh finish = refl

  exchange-warnings :
      (s : Slots) (i : ℕ) (p q : PenaltyState) → (exchange s i p q).0.warnings ≡ s.warnings
  unfolding exchange
  exchange-warnings s i p q = ground arith

  exchange_for-warnings :
      (s : Slots) (id : Text) (p q : PenaltyState) → (exchange_for F s id p q).warnings ≡ s.warnings
  exchange_for-warnings s id p q = elim (driver_index-cases F id) [
    | inl (i, at, l) ↦ rw (at, exchange_for) (exchange-warnings s i p q)
    | inr (m, at) ↦ rw (at, exchange_for) refl
  ]

  -- A pit call counts no warning, and takes no penalty from "none" or back to it.
  pit-Tracks :
      (j n k : ℕ) (s t : Slots)
      → Tracks j n k s
      → IsSized t
      → t.warnings ≡ s.warnings
      → same_state (state_at t j) PenaltyState.none ≡ same_state (state_at s j) PenaltyState.none
      → Tracks j (n + 0) (k + 0) t
  unfolding same_state
  pit-Tracks j n k s t v z w e = record {
    sized = z;
    counted = ap (λ l. get_or l j 0) w ∙ omega (arith, v.counted);
    before = λ h. ground (arith, v.before);
    after = λ h. ground (arith, v.after);
    once = ground (arith, v.once);
  }

  pub act-Tracks :
      (j n k : ℕ) (s : Slots) (a : Action)
      → Tracks j n k s
      → n + 1 < 2 ^ 32
      → IsArray a
      → Tracks j (n + violation j a) (k + count_one j (act F s a).1) (act F s a).0
  unfolding act handle driver_entered_pits driver_exited_pits
  act-Tracks j n k s (event now e) v small array = elim (Bool-cases (is_track_limits e.type)) [
    | inl counts ↦
        rw (is_violation-eq e.type) (elim (driver_index-cases F (until_nul e.driver_id)) [
          | inl (i, at, l) ↦ rw (counts, at) (warn-Tracks now s e i j n k v l small array at)
          | inr (m, at) ↦ rw (counts, at) (keep-Tracks j n k s v)
        ])
    | inr other ↦ rw (is_violation-eq e.type, other) (keep-Tracks j n k s v)
  ]
  act-Tracks j n k s (entered id) v small array =
      pit-Tracks j n k s (driver_entered_pits F s id) v (act-IsSized F s (entered id) v.sized)
        (exchange_for-warnings s id PenaltyState.pending PenaltyState.serving)
        (entered-fresh (act-Move F s (entered id) j v.sized))
  act-Tracks j n k s (exited id) v small array =
      pit-Tracks j n k s (driver_exited_pits F s id) v (act-IsSized F s (exited id) v.sized)
        (exchange_for-warnings s id PenaltyState.serving PenaltyState.served)
        (exited-fresh (act-Move F s (exited id) j v.sized))
