-- ===== src/Spsc/Refine.antt =====
-- The ring used by one thread at a time: what it holds between calls, and what calls return.
pub mod Push
pub mod Pop
pub mod Runs
use formula_one_telemetry_si.Prelude.{
  ℕ, ◌+◌, ◌-◌, ◌%◌, ◌<◌, ◌≡◌, ◌≢◌, refl, sym, ap, ap₂, ◌∙◌, Bool, true, false, Option, none, some,
  List, [], ◌∷◌, ◌++◌, ◌==◌, if◌then◌else◌, ltb, length, set, get_elem?, arith, Bool-cases, inl,
  inr, append_assoc, append-nil, length-append, get_elem?-set_self, lt→ltb, ==_iff,
  get_elem?-append_mid, ◌≤◌, replicate, length-replicate,
}
use mathlib.Core.Path.{subst}
use native.Mathlib.Nat.{mod-lt}
use formula_one_telemetry_si.Spsc.{
  IsCapacity, SpscQueue, init, next, push, pop, store, refresh_head, refresh_tail, take_item,
}
use formula_one_telemetry_si.Spsc.Index.{next_at, room_test, full_test, count_test, mod_injective}
use formula_one_telemetry_si.Spsc.Fifo
use formula_one_telemetry_si.Spsc.Fifo.{Request, enqueue, dequeue, Reply}
use formula_one_telemetry_si.Spsc.Threads.{start, Shared, with_queue, release}
use formula_one_telemetry_si.Spsc.Threads.Inv.{Holds}
use formula_one_telemetry_si.Spsc.Threads.Frames.{
  Holds-start, Holds-refresh_head, Holds-refresh_tail, Holds-write, Holds-publish, Holds-release,
}

-- What a client's calls return, in order.
unfoldable pub replies {ℓ} : {T : Type ℓ} → ℕ → SpscQueue T → List (Request T) → List (Reply T)
replies capacity q [] = []
replies capacity q (enqueue x ∷ rs) =
    let (q', done) = push capacity q x in (done, none) ∷ replies capacity q' rs
replies capacity q (dequeue ∷ rs) =
    let (q', done, out) = pop capacity q in (done, out) ∷ replies capacity q' rs

module _ {T : Type 0} (capacity : ℕ) where
  -- The ring holds `xs` between calls: some history of pushes and pops leads to it.
  pub record Represents (q : SpscQueue T) (xs : List T) : Type 0 where
    pub history : Shared T
    pub now : history.queue ≡ q
    pub waiting : history.pushed ≡ history.popped ++ xs
    pub holds : Holds capacity history

  -- The number of items that wait, against the count of pops that the producer knows of.
  pub length_waiting :
      (s : Shared T) (xs : List T)
      → s.pushed ≡ s.popped ++ xs
      → length s.pushed ≡ length s.popped + length xs
  length_waiting s xs w = ap length w ∙ length-append s.popped xs
