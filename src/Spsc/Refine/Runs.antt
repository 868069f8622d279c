-- ===== src/Spsc/Refine/Runs.antt =====
-- One thread at a time, the ring answers as a bounded first-in first-out list, stale caches or not.
use formula_one_telemetry_si.Prelude.{ℕ, ◌-◌, ◌≡◌, refl, ap, ap₂, Bool, Option, none, List, [], ◌∷◌}
use formula_one_telemetry_si.Spsc.{IsCapacity, SpscQueue, init}
use formula_one_telemetry_si.Spsc.Fifo
use formula_one_telemetry_si.Spsc.Fifo.{Request, enqueue, dequeue, Reply}
use formula_one_telemetry_si.Spsc.Threads.{start}
use formula_one_telemetry_si.Spsc.Threads.Frames.{Holds-start}
use formula_one_telemetry_si.Spsc.Refine.{Represents, replies}
use formula_one_telemetry_si.Spsc.Refine.Push.{push_refines}
use formula_one_telemetry_si.Spsc.Refine.Pop.{pop_refines}

module _ {T : Type 0} {capacity : ℕ} (valid : IsCapacity capacity) where
  pub init-Represents : (blank : T) → Represents capacity (init capacity blank) []
  init-Represents blank = record {
    history = (start capacity blank).shared;
    now = refl;
    waiting = refl;
    holds = Holds-start valid blank;
  }

  answers :
      (rs : List (Request T)) (q : SpscQueue T) (xs : List T)
      → Represents capacity q xs
      → replies capacity q rs ≡ Fifo.replies (capacity - 1) xs rs
  unfolding replies Fifo.replies
  answers [] q xs r = refl
  answers (enqueue x ∷ rs) q xs r =
      let (same, r') = push_refines valid q xs x r in
      ap₂ ◌∷◌ (ap (λ (b : Bool). (b, none)) same) (answers rs _ _ r')
  answers (dequeue ∷ rs) q xs r =
      let (same, out, r') = pop_refines valid q xs r in
      ap₂ ◌∷◌ (ap₂ (λ (b : Bool) (o : Option T). (b, o)) same out) (answers rs _ _ r')

  -- For a valid capacity, no sequence of calls of one thread at a time tells a new ring from an empty
  -- list of at most `capacity - 1` items.
  pub replies_refine :
      (blank : T) (rs : List (Request T))
      → replies capacity (init capacity blank) rs ≡ Fifo.replies (capacity - 1) [] rs
  replies_refine blank rs = answers rs (init capacity blank) [] (init-Represents blank)
