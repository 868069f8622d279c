-- ===== src/Spsc/Refine/Pop.antt =====
-- `pop` against the contract of Spsc/Fifo.antt.
use formula_one_telemetry_si.Prelude.{
  ℕ, ◌%◌, ◌<◌, ◌≡◌, refl, sym, ap, ◌∙◌, Bool, false, Option, none, some, List, [], ◌∷◌, ◌++◌, ◌==◌,
  length, get_elem?, arith, Bool-cases, inl, inr, append_assoc, ==_iff, get_elem?-append_mid, ◌≤◌,
}
use mathlib.Core.Path.{subst}
use formula_one_telemetry_si.Spsc.{IsCapacity, SpscQueue, next, pop, refresh_tail, take_item}
use formula_one_telemetry_si.Spsc.Index.{next_at, count_test, mod_injective}
use formula_one_telemetry_si.Spsc.Fifo
use formula_one_telemetry_si.Spsc.Fifo.{Request, enqueue, dequeue, Reply}
use formula_one_telemetry_si.Spsc.Threads.{Shared, with_queue, release}
use formula_one_telemetry_si.Spsc.Threads.Inv.{Holds}
use formula_one_telemetry_si.Spsc.Threads.Frames.{Holds-refresh_tail, Holds-release}
use formula_one_telemetry_si.Spsc.Refine.{Represents, length_waiting}

module _ {T : Type 0} {capacity : ℕ} (valid : IsCapacity capacity) where
  abbrev Gets : List T → SpscQueue T × Bool × Option T → Type 0
  Gets xs r =
      let (ys, done, out) = Fifo.get xs in (r.1 ≡ done) × (r.2 ≡ out) × Represents capacity r.0 ys

  front :
      (s : Shared T) (x : T) (xs : List T)
      → s.pushed ≡ s.popped ++ x ∷ xs
      → get_elem? s.pushed (length s.popped) ≡ some x
  front s x xs w =
      ap (λ (l : List T). get_elem? l (length s.popped)) w ∙ get_elem?-append_mid s.popped x xs

  Gets-item :
      (s : Shared T) (xs : List T) (v : Holds capacity s)
      → s.pushed ≡ s.popped ++ xs
      → length s.popped < v.tc
      → Gets xs (take_item capacity s.queue)
  unfolding Fifo.get
  Gets-item s [] v w r = absurd (omega (arith, length_waiting capacity s [] w, v.tc_le))
  Gets-item s (x ∷ xs) v w r = (refl, found, rest)
    where
      found : get_elem? s.buffer s.head ≡ some x
      found =
          ap (get_elem? s.buffer) v.head_at
          ∙ v.slots (length s.popped) (omega arith) (omega (arith, v.tc_le))
          ∙ front s x xs w

      rest : Represents capacity (record s.queue { head = next capacity s.head }) xs
      rest = record {
        history = release s x (next capacity s.head);
        now = refl;
        waiting = w ∙ sym (append_assoc s.popped (x ∷ []) xs);
        holds =
            Holds-release capacity s x (next capacity s.head) v
              (next_at valid s.head (length s.popped) v.head_at) r (front s x xs w);
      }

  Gets-none :
      (s : Shared T) (xs : List T) (v : Holds capacity s)
      → s.pushed ≡ s.popped ++ xs
      → s.head ≡ s.tail
      → Gets xs (refresh_tail s.queue, false, none)
  unfolding Fifo.get
  Gets-none s [] v w e = (
    refl,
    refl,
    record {
      history = with_queue s (refresh_tail s.queue);
      now = refl;
      waiting = w;
      holds = Holds-refresh_tail capacity s v;
    },
  )
  Gets-none s (x ∷ xs) v w e =
      let same : length s.popped ≡ length s.pushed =
        mod_injective capacity (length s.popped) (length s.pushed) (omega (arith, v.le_tc, v.tc_le))
          (omega (arith, v.room, v.hc_le)) (omega (arith, v.head_at, v.tail_at)) in
      absurd (omega (arith, length_waiting capacity s (x ∷ xs) w))

  -- The consumer's test against an index of a count of pushes that it knows of.
  has_item :
      (s : Shared T) (t i : ℕ)
      → Holds capacity s
      → i ≡ t % capacity
      → length s.popped ≤ t
      → (s.head == i) ≡ false
      → length s.popped < t
  has_item s t i v e l test =
      count_test capacity (length s.popped) t l (λ same. ground (arith, v.head_at))

  Gets-pop :
      (s : Shared T) (xs : List T)
      → Holds capacity s
      → s.pushed ≡ s.popped ++ xs
      → Gets xs (pop capacity s.queue)
  unfolding pop Holds-refresh_tail
  Gets-pop s xs v w = elim (Bool-cases (s.head == s.tail_cache)) [
    | inl met ↦ elim (Bool-cases (s.head == s.tail)) [
      | inl none_left ↦ rw (met, none_left) (Gets-none s xs v w ((==_iff _ _).0 none_left))
      | inr some_left ↦
          rw (met, some_left)
            (Gets-item (with_queue s (refresh_tail s.queue)) xs (Holds-refresh_tail capacity s v) w
              (has_item s (length s.pushed) s.tail v v.tail_at (omega (arith, v.le_tc, v.tc_le))
                some_left))
    ]
    | inr apart ↦
        rw apart (Gets-item s xs v w (has_item s v.tc s.tail_cache v v.tail_cache_at v.le_tc apart))
  ]

  -- `pop` on a ring that holds `xs` returns what the contract returns, through `out` too, and leaves
  -- a ring that holds the contract's list.
  pub pop_refines :
      (q : SpscQueue T) (xs : List T)
      → Represents capacity q xs
      → let (q', done, out) = pop capacity q in
        let (ys, done', out') = Fifo.get xs in
        (done ≡ done') × (out ≡ out') × Represents capacity q' ys
  pop_refines q xs r =
      subst (λ p. Gets xs (pop capacity p)) r.now (Gets-pop r.history xs r.holds r.waiting)
