-- ===== src/Tests/Nodes.antt =====
-- The linked queue of src/concurrency/mpsc_queue.h, with an allocator that puts each node above all
-- addresses used so far.
use formula_one_telemetry_si.Prelude.{
  ℕ, suc, ◌≤◌, ◌≡◌, ◌↔◌, ◌⊎◌, refl, true, false, none, some, List, [], ◌∷◌, ◌++◌, max, ℕ_discrete,
  arith,
}
use formula_one_telemetry_si.Queue.{push, pop, replies, list_queue}
use formula_one_telemetry_si.Mpsc.Nodes.{Memory, lookup}
use formula_one_telemetry_si.Mpsc.{
  System, Turn, producer, consumer, outside, linking, start, run, produce, consume, allocate, link,
  examine, take_node, empty,
}
use formula_one_telemetry_si.Mpsc.Safety.{NothingToTake, popped_fifo, gives_up_iff}
use formula_one_telemetry_si.Mpsc.Progress.{Pops, oldest_popped}
use formula_one_telemetry_si.Mpsc.Calls.Pops.{mpsc_queue, calls_refine}
use formula_one_telemetry_si.Mpsc.Calls.Destroy.{destroy, destroy-frees_all}

module _ {T : Type 0} where
  abbrev pub above : Memory T → ℕ
  above [] = 0
  above ((a, _) ∷ m) = max (suc a) (above m)

  lookup-above : (m : Memory T) (b : ℕ) → above m ≤ b → lookup m b ≡ none
  unfolding lookup
  lookup-above [] b h = refl
  lookup-above ((a, c) ∷ m) b h = ground (arith, lookup-above m b)

  pub above_free : (m : Memory T) → lookup m (above m) ≡ none
  above_free m = lookup-above m (above m) (omega arith)

-- A move leaves an `int` as it is.
abbrev kept : ℕ → ℕ
kept x = x

abbrev calls_of : ℕ → ℕ → ℕ → List (Turn ℕ) → List (Turn ℕ)
calls_of i a x ts = producer i a x ∷ producer i a x ∷ producer i a x ∷ ts

-- The producer 1 has exchanged the head and not yet linked its node; the whole push of the producer 2
-- comes after.
abbrev overtaken_turns : List (Turn ℕ)
overtaken_turns = producer 1 11 5 ∷ producer 1 0 0 ∷ calls_of 2 12 6 []

abbrev overtaken : System ℕ
overtaken = run kept (start 0 10) overtaken_turns

-- Two pushes and a pop; a third push has the address that the pop gave back.
abbrev rested_turns : List (Turn ℕ)
rested_turns = calls_of 1 11 5 (calls_of 2 12 6 (consumer ∷ consumer ∷ calls_of 1 10 7 []))

abbrev rested : System ℕ
rested = run kept (start 0 10) rested_turns

-- Each producer has ended its call.
rested_outside : (i : ℕ) → rested.producers i ≡ outside
unfolding run produce allocate lookup link consume examine take_node
rested_outside i = elim (ℕ_discrete 1 i) [
  | yes one ↦ rw (← one) refl
  | no other ↦ elim (ℕ_discrete 2 i) [ yes two ↦ rw (← two) refl | no neither ↦ ground arith ]
]

popped_fifo_example :
    ((waiting : List ℕ) × (overtaken.pushed ≡ overtaken.popped ++ waiting))
    × (overtaken.fault ≡ false)
popped_fifo_example = popped_fifo kept overtaken (0, 10, overtaken_turns, refl)

gives_up_iff_example :
    (((consume kept overtaken.queue outside).1 ≡ outside) ↔ NothingToTake overtaken)
    × ((empty overtaken.queue ≡ some true) ↔ NothingToTake overtaken)
    × ((empty overtaken.queue ≡ some true) ⊎ (empty overtaken.queue ≡ some false))
gives_up_iff_example = gives_up_iff kept overtaken (0, 10, overtaken_turns, refl)

oldest_popped_example :
    Pops kept overtaken (consumer ∷ consumer ∷ [])
    ⊎ ((i prev node : ℕ) × (overtaken.producers i ≡ linking prev node)
        × Pops kept overtaken (producer i 0 0 ∷ consumer ∷ consumer ∷ []))
unfolding run produce allocate lookup link
oldest_popped_example =
    oldest_popped kept overtaken 0 0 (0, 10, overtaken_turns, refl) refl (omega arith)

calls_refine_example :
    replies (mpsc_queue kept above above_free 3) rested (pop ∷ push 8 ∷ pop ∷ pop ∷ pop ∷ [])
    ≡ replies list_queue (6 ∷ 7 ∷ []) (pop ∷ push 8 ∷ pop ∷ pop ∷ pop ∷ [])
unfolding run produce allocate lookup link consume examine take_node
calls_refine_example =
    calls_refine kept above above_free 3 rested (6 ∷ 7 ∷ []) (pop ∷ push 8 ∷ pop ∷ pop ∷ pop ∷ [])
      (0, 10, rested_turns, refl) rested_outside refl refl

destroy-frees_all_example :
    (m : Memory ℕ) × (destroy kept 3 rested ≡ some m) × ((a : ℕ) → lookup m a ≡ none)
unfolding run produce allocate lookup link consume examine take_node
destroy-frees_all_example =
    destroy-frees_all kept 3 rested (0, 10, rested_turns, refl) rested_outside refl (omega arith)
