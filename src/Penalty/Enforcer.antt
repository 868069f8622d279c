-- ===== src/Penalty/Enforcer.antt =====
-- `process_events` over the shared queue: what it takes, what it does, and what it leaves.
use mathlib.Core.Path.{subst}
use formula_one_telemetry_si.Prelude.{
  ℕ, suc, ◌<◌, ◌≡◌, refl, ◌∙◌, ap, false, Option, none, some, List, [], ◌∷◌, ◌++◌, length, All,
  append-nil, append_assoc,
}
use formula_one_telemetry_si.Floats.{Floats}
use formula_one_telemetry_si.Types.{RaceControlEvent}
use formula_one_telemetry_si.Queue.{FifoQueue, drain_all}
use formula_one_telemetry_si.Penalty.{
  Slots, PenaltyEnforcer, is_track_limits, handle, push_some, process_batch, process_events,
}
use formula_one_telemetry_si.Penalty.Machine.{Action, event, act}
use formula_one_telemetry_si.Penalty.History.{run, listed}

-- A batch as a history: event `k` of the batch is handled when the clock shows `clock k`.
abbrev pub history : (ℕ → ℕ) → ℕ → List RaceControlEvent → List Action
history clock k [] = []
history clock k (e ∷ es) = event (clock k) e ∷ history clock (suc k) es

module _ (F : Type 0) ⦃f : Floats F⦄ {Q : Type 0} (queue : FifoQueue Q RaceControlEvent) where
  open queue use {Holds, push-Holds}

  append-listed :
      (xs : List RaceControlEvent) (e : Option RaceControlEvent) (ys : List RaceControlEvent)
      → (xs ++ listed F e []) ++ ys ≡ xs ++ listed F e ys
  append-listed xs none ys = rw append-nil
  append-listed xs (some e) ys = append_assoc xs (e ∷ []) ys

  push_some-Holds :
      (q : Q) (xs : List RaceControlEvent) (e : Option RaceControlEvent)
      → Holds q xs
      → Holds (push_some F queue q e) (xs ++ listed F e [])
  push_some-Holds q xs none h = rw append-nil h
  push_some-Holds q xs (some e) h = push-Holds q xs e h

  batch_runs :
      (clock : ℕ → ℕ) (k : ℕ) (es xs : List RaceControlEvent) (p : PenaltyEnforcer Q)
      → Holds p.events xs
      → let (s, pushed) = run F p.slots (history clock k es) in
        ((process_batch F queue clock k p es).slots ≡ s)
        × Holds (process_batch F queue clock k p es).events (xs ++ pushed)
  unfolding process_batch run act
  batch_runs clock k [] xs p h = (refl, rw append-nil h)
  batch_runs clock k (e ∷ es) xs p h =
      let (s, pushed) = handle F (clock k) p.slots e in
      let p' : PenaltyEnforcer Q = record {
        events = push_some F queue p.events pushed;
        slots = s;
      } in
      let (slots, held) =
        batch_runs clock (suc k) es (xs ++ listed F pushed []) p'
          (push_some-Holds p.events xs pushed h) in
      let after = run F s (history clock (suc k) es) in
      (
        slots,
        subst (Holds (process_batch F queue clock (suc k) p' es).events)
            (append-listed xs pushed after.1) held,
      )

  -- With more fuel than events in the queue, `process_events` returns; it has handled every event
  -- that was queued, in order, and leaves in the queue exactly the penalties that it announced.
  pub process_events_runs :
      (fuel : ℕ) (clock : ℕ → ℕ) (p : PenaltyEnforcer Q) (xs : List RaceControlEvent)
      → Holds p.events xs
      → length xs < fuel
      → let (s, pushed) = run F p.slots (history clock 0 xs) in
        (p' : PenaltyEnforcer Q) × (process_events F queue fuel clock p ≡ some p')
        × (p'.slots ≡ s)
        × Holds p'.events pushed
  unfolding process_events
  process_events_runs fuel clock p xs h l =
      let (q, drained, empty) = drain_all queue fuel p.events xs h l in
      let (s, held) = batch_runs clock 0 xs [] (record { events = q; slots = p.slots }) empty in
      (
        process_batch F queue clock 0 (record { events = q; slots = p.slots }) xs,
        rw (drained, process_events) refl,
        s,
        held,
      )

  ignored :
      (clock : ℕ → ℕ) (k : ℕ) (xs : List RaceControlEvent) (s : Slots)
      → All (λ e. is_track_limits e.type ≡ false) xs
      → run F s (history clock k xs) ≡ (s, [])
  unfolding run act handle
  ignored clock k [] s h = refl
  ignored clock k (e ∷ es) s h = rw h.0 (ignored clock (suc k) es s h.1)

  -- With more fuel than events in the queue, and none of them a track-limits event, as after a call
  -- that announced penalties: `process_events` empties the queue and changes no entry, so that no
  -- later consumer sees those events.
  pub process_events_discards :
      (fuel : ℕ) (clock : ℕ → ℕ) (p : PenaltyEnforcer Q) (xs : List RaceControlEvent)
      → Holds p.events xs
      → length xs < fuel
      → All (λ e. is_track_limits e.type ≡ false) xs
      → (p' : PenaltyEnforcer Q) × (process_events F queue fuel clock p ≡ some p')
        × (p'.slots ≡ p.slots)
        × Holds p'.events []
  process_events_discards fuel clock p xs h l other =
      let (p', returns, slots, held) = process_events_runs fuel clock p xs h l in
      let nothing = ignored clock 0 xs p.slots other in
      (
        p',
        returns,
        slots ∙ ap (λ (r : Slots × List RaceControlEvent). r.0) nothing,
        subst (λ r. Holds p'.events r.1) nothing held,
      )
