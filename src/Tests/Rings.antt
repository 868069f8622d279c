-- ===== src/Tests/Rings.antt =====
-- The ring of src/concurrency/spsc_queue.h on a ring of four slots.
use formula_one_telemetry_si.Prelude.{
  ℕ, zero, suc, ◌+◌, ◌-◌, ◌<◌, ◌≡◌, ◌≢◌, ◌↔◌, refl, List, [], ◌∷◌, ◌++◌, length, arith, true, false,
  none, some,
}
use formula_one_telemetry_si.Spsc.{IsCapacity, init, next, push, pop}
use formula_one_telemetry_si.Spsc.Fifo
use formula_one_telemetry_si.Spsc.Fifo.{Request, enqueue, dequeue}
use formula_one_telemetry_si.Spsc.Threads.{
  System, Turn, producer, consumer, start, run, step, produce, consume, outside,
}
use formula_one_telemetry_si.Spsc.Threads.Safety.{
  pushed-eq-popped-append, slots_apart, refuses_iff_full, gives_up_iff_empty,
}
use formula_one_telemetry_si.Spsc.Refine.{replies}
use formula_one_telemetry_si.Spsc.Refine.Runs.{replies_refine}

four : IsCapacity 4
four = record { at_least_two = omega arith; power_of_two = refl; fits = omega arith }

-- `n` turns of the producer, which pushes `item` whenever it is free.
abbrev producing : ℕ → ℕ → List (Turn ℕ) → List (Turn ℕ)
producing item zero ts = ts
producing item (suc n) ts = producer item ∷ producing item n ts

abbrev consuming : ℕ → List (Turn ℕ) → List (Turn ℕ)
consuming zero ts = ts
consuming (suc n) ts = consumer ∷ consuming n ts

-- Two items are pushed and one popped, and a third push and a second pop are on their way.
abbrev busy_turns : List (Turn ℕ)
busy_turns = producing 7 3 (producing 8 3 (consuming 4 (producing 9 1 (consuming 1 []))))

abbrev busy : System ℕ
busy = run 4 (start 4 0) busy_turns

-- Three items are pushed; a fourth push meets its stale copy of the head.
abbrev full_turns : List (Turn ℕ)
full_turns = producing 7 9 (producing 9 1 [])

abbrev full : System ℕ
full = run 4 (start 4 0) full_turns

-- The consumer has popped the only item and looks for another.
abbrev drained_turns : List (Turn ℕ)
drained_turns = producing 7 3 (consuming 5 [])

abbrev drained : System ℕ
drained = run 4 (start 4 0) drained_turns

full_refuses : (step 4 full (producer 5)).producer ≡ outside
unfolding run produce next
full_refuses = refl

pushed-eq-popped-append_example :
    (waiting : List ℕ) × (busy.shared.pushed ≡ busy.shared.popped ++ waiting) × (length waiting < 4)
pushed-eq-popped-append_example = pushed-eq-popped-append four busy (0, busy_turns, refl)

slots_apart_example :
    (◌≢◌ {A = ℕ} 2 1) × (2 < length busy.shared.buffer) × (1 < length busy.shared.buffer)
unfolding run produce consume next
slots_apart_example = slots_apart four busy 9 2 3 1 (0, busy_turns, refl) refl refl

refuses_iff_full_example :
    ((step 4 full (producer 5)).producer ≡ outside)
    ↔ (length full.shared.pushed ≡ length full.shared.popped + (4 - 1))
unfolding run produce next
refuses_iff_full_example = refuses_iff_full four full 9 5 3 0 (0, full_turns, refl) refl

gives_up_iff_empty_example :
    ((step 4 drained consumer).consumer ≡ outside) ↔ (drained.shared.pushed ≡ drained.shared.popped)
unfolding run produce consume next
gives_up_iff_empty_example = gives_up_iff_empty four drained 1 (0, drained_turns, refl) refl

abbrev calls : List (Request ℕ)
calls =
    enqueue 1
    ∷ enqueue 2
    ∷ enqueue 3
    ∷ enqueue 4
    ∷ dequeue
    ∷ enqueue 5
    ∷ dequeue
    ∷ dequeue
    ∷ dequeue
    ∷ dequeue
    ∷ []

-- The fourth push is refused, the last pop finds nothing.
calls-replies :
    replies 4 (init 4 0) calls
    ≡ (true, none)
      ∷ (true, none)
      ∷ (true, none)
      ∷ (false, none)
      ∷ (true, some 1)
      ∷ (true, none)
      ∷ (true, some 2)
      ∷ (true, some 3)
      ∷ (true, some 5)
      ∷ (false, none)
      ∷ []
unfolding replies push pop next
calls-replies = refl

replies_refine_example : replies 4 (init 4 0) calls ≡ Fifo.replies (4 - 1) [] calls
replies_refine_example = replies_refine four 0 calls
