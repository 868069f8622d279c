-- ===== src/Mpsc/Calls.antt =====
-- The calls of the queue, each from its start to its end with no turn of another thread between. They
-- fill the contract that race control relies on.
pub mod Pops
pub mod Destroy
use formula_one_telemetry_si.Prelude.{
  ℕ, zero, suc, ◌≤◌, ◌<◌, ◌≡◌, ◌≢◌, inl, inr, refl, sym, ap, ◌∙◌, Bool, true, false, Option, none,
  some, List, [], ◌∷◌, ◌++◌, append_assoc, length, length-append, update, update_self, update_ne,
  ◌==◌, ==_iff, if◌then◌else◌, update-both, arith,
}
use mathlib.Core.Path.{subst}
use formula_one_telemetry_si.Queue.{FifoQueue, drain, drain_all}
use formula_one_telemetry_si.Mpsc.Nodes.{Node, Memory, lookup, write}
use formula_one_telemetry_si.Mpsc.{
  Producer, Consumer, outside, exchanging, linking, taking, MpscQueue, System, Turn, producer,
  consumer, step, run, consume, produce, allocate, link,
}
use formula_one_telemetry_si.Mpsc.Inv.{Inv}
use formula_one_telemetry_si.Mpsc.Keeps.Turns.{step-Inv, run-Inv, start-Inv}

module _ {T : Type 0} where
  -- Between calls: the queue is in order, every thread stands outside its call, and `xs` waits.
  pub record Holds (s : System T) (xs : List T) : Type 0 where
    pub inv : Inv s
    pub producers_outside : (i : ℕ) → s.producers i ≡ outside
    pub consumer_outside : s.consumer ≡ outside
    pub waiting : s.pushed ≡ s.popped ++ xs

-- `moved` is what a move leaves in the value that it moves from.
module _ {T : Type 0} (moved : T → T) where
  -- What `out` holds after a pop that found the node `next`, and the state; `none` is the returned
  -- `false`.
  abbrev pub finish : System T → Option (Node T) → Option (T × System T)
  finish s none = none
  finish s (some node) = some (node.value, step moved s consumer)

  abbrev pub taken : System T → Consumer → Option (T × System T)
  taken s outside = none
  taken s (taking next) = finish s (lookup s.queue.memory next)

  unfoldable pub pop : System T → Option (T × System T)
  pop s = taken (step moved s consumer) (step moved s consumer).consumer

-- `malloc` is where the allocator puts a node; `thread` is the producer that calls.
module _ {T : Type 0} (moved : T → T) (malloc : Memory T → ℕ) (thread : ℕ) where
  -- The three turns of a call.
  abbrev turns : ℕ → T → List (Turn T)
  turns a x = producer thread a x ∷ producer thread a x ∷ producer thread a x ∷ []

  unfoldable pub push : System T → T → System T
  push s x = run moved s (turns (malloc s.queue.memory) x)

  abbrev placed : System T → MpscQueue T × Producer T → System T
  placed s (q, p) = record s { queue = q; producers = update s.producers thread p }

  -- After the allocation, after the exchange, and where the push leaves the system.
  abbrev allocated : System T → ℕ → T → System T
  allocated s a x = placed s (allocate s.queue a x none)

  abbrev exchanged : System T → ℕ → T → System T
  exchanged s a x = placed (allocated s a x) (produce (allocated s a x).queue a x (exchanging a x))

  abbrev pushed : System T → ℕ → T → System T
  pushed s a x =
      let q = (exchanged s a x).queue in
      placed (exchanged s a x) (link q s.queue.head a (lookup q.memory s.queue.head), outside)

  step-produce :
      (s : System T) (a : ℕ) (x : T) (p : Producer T)
      → s.producers thread ≡ p
      → step moved s (producer thread a x) ≡ placed s (produce s.queue a x p)
  step-produce s a x p at = ap (λ (o : Producer T). placed s (produce s.queue a x o)) at

  run-turns :
      (s : System T) (a : ℕ) (x : T)
      → s.producers thread ≡ outside
      → lookup s.queue.memory a ≡ none
      → run moved s (turns a x) ≡ pushed s a x
  unfolding run produce allocate
  run-turns s a x at free =
      ap (λ z. run moved z (turn ∷ turn ∷ []))
        (step-produce s a x outside at ∙ ap (λ c. placed s (allocate s.queue a x c)) free)
      ∙ ap (λ z. run moved z (turn ∷ []))
          (step-produce (allocated s a x) a x (exchanging a x)
            (update_self s.producers thread (exchanging a x)))
      ∙ step-produce (exchanged s a x) a x (linking s.queue.head a)
          (update_self (allocated s a x).producers thread (linking s.queue.head a))
    where
      turn : Turn T
      turn = producer thread a x

  link-pushed :
      (q : MpscQueue T) (a b : ℕ) (c : Option (Node T))
      → ((link q a b c).pushed ≡ q.pushed) × ((link q a b c).popped ≡ q.popped)
  unfolding link
  link-pushed q a b none = (refl, refl)
  link-pushed q a b (some node) = (refl, refl)

  pushed-eq :
      (s : System T) (a : ℕ) (x : T)
      → ((pushed s a x).queue.pushed ≡ s.queue.pushed ++ x ∷ [])
        × ((pushed s a x).queue.popped ≡ s.queue.popped)
  unfolding produce allocate
  pushed-eq s a x =
      let q = (exchanged s a x).queue in link-pushed q s.queue.head a (lookup q.memory s.queue.head)

  pushed-outside :
      (s : System T) (a : ℕ) (x : T)
      → ((i : ℕ) → s.producers i ≡ outside)
      → (i : ℕ) → (pushed s a x).producers i ≡ outside
  unfolding produce allocate
  pushed-outside s a x h =
      update-both (λ i p. p ≡ outside) (exchanged s a x).producers thread outside refl
        (λ i ne.
          update_ne (allocated s a x).producers thread i (linking s.queue.head a) ne
          ∙ update_ne s.producers thread i (exchanging a x) ne
          ∙ h i)

  pub push-Holds :
      ((m : Memory T) → lookup m (malloc m) ≡ none)
      → (s : System T) (xs : List T) (x : T) → Holds s xs
      → Holds (push s x) (xs ++ x ∷ [])
  unfolding push
  push-Holds fresh s xs x h =
      let a = malloc s.queue.memory in
      let done = run-turns s a x (h.producers_outside thread) (fresh s.queue.memory) in
      let ok = run-Inv moved s (turns a x) h.inv in
      let (grown, kept) = pushed-eq s a x in
      rw done (record {
        inv = subst Inv done ok;
        producers_outside = pushed-outside s a x h.producers_outside;
        consumer_outside = h.consumer_outside;
        waiting =
            grown
            ∙ ap (λ (l : List T). l ++ x ∷ []) h.waiting
            ∙ append_assoc s.popped xs (x ∷ [])
            ∙ ap (λ (l : List T). l ++ (xs ++ x ∷ [])) (sym kept);
      })
