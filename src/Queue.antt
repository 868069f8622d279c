-- ===== src/Queue.antt =====
-- What the components of race control rely on in the event queue that they share: the contract of
-- src/concurrency/mpsc_queue.h between calls. `Holds q xs` says that `q` is in order and holds
-- `xs`, oldest first.
use formula_one_telemetry_si.Prelude.{
  ℕ, zero, suc, ◌≤◌, ◌<◌, ◌≡◌, refl, ap, Option, none, some, List, [], ◌∷◌, ◌++◌, length, arith,
}

pub record FifoQueue (Q A : Type 0) : Type 1 where
  pub push : Q → A → Q
  pub pop : Q → Option (A × Q)  -- `none` is the returned `false`
  pub Holds : Q → List A → Type 0
  pub push-Holds : (q : Q) (xs : List A) (x : A) → Holds q xs → Holds (push q x) (xs ++ x ∷ [])
  pub pop-nil : (q : Q) → Holds q [] → pop q ≡ none
  pub pop-cons :
      (q : Q) (x : A) (xs : List A)
      → Holds q (x ∷ xs)
      → (q' : Q) × (pop q ≡ some (x, q')) × Holds q' xs

-- A plain list meets the contract.
abbrev pub list_queue : {A : Type 0} → FifoQueue (List A) A
list_queue = record {
  push = λ q x. q ++ x ∷ [];
  pop = λ q. elim q [ [] ↦ none | x ∷ xs ↦ some (x, xs) ];
  Holds = λ q xs. q ≡ xs;
  push-Holds = λ q xs x h. ap (λ l. l ++ x ∷ []) h;
  pop-nil = λ q h. rw h;
  pop-cons = λ q x xs h. (xs, rw h, refl);
}

module _ {Q A : Type 0} (queue : FifoQueue Q A) where
  open queue use {push, pop, Holds, push-Holds, pop-nil, pop-cons}

  -- `while (pop(ev)) batch.push_back(ev)`: the batch and the queue left; `none` is out of fuel.
  unfoldable pub drain : ℕ → Q → Option (List A × Q)
  drain zero q = none
  drain (suc n) q = elim (pop q) [
    | none ↦ some ([], q)
    | some (x, q') ↦ elim (drain n q') [ none ↦ none | some (xs, q'') ↦ some (x ∷ xs, q'') ]
  ]

  -- With more fuel than items the loop ends; it takes all of them, in order, and leaves none.
  pub drain_all :
      (n : ℕ) (q : Q) (xs : List A)
      → Holds q xs
      → length xs < n
      → (q' : Q) × (drain n q ≡ some (xs, q')) × Holds q' []
  unfolding drain
  drain_all zero q xs h l = elim l [ ]
  drain_all (suc n) q [] h l = (q, rw (pop-nil q h, drain), h)
  drain_all (suc n) q (x ∷ xs) h l =
      let (q', popped, h') = pop-cons q x xs h in
      let (q'', drained, h'') = drain_all n q' xs h' (omega arith) in
      (q'', rw (popped, drain, drained), h'')

module _ {Q A : Type 0} (queue : FifoQueue Q A) where
  open queue use {Holds, pop-cons}

  -- With no more fuel than items the loop does not end.
  pub drain_short :
      (n : ℕ) (q : Q) (xs : List A) → Holds q xs → n ≤ length xs → drain queue n q ≡ none
  unfolding drain
  drain_short zero q xs h l = refl
  drain_short (suc n) q [] h l = absurd (omega (arith, l))
  drain_short (suc n) q (x ∷ xs) h l =
      let (q', popped, h') = pop-cons q x xs h in
      rw (popped, drain, drain_short n q' xs h' (omega (arith, l))) refl

pub data Call (A : Type 0) : Type 0 where
  push : A → Call A
  pop : Call A

module _ {Q A : Type 0} (queue : FifoQueue Q A) where
  -- What the calls of `pop` return, one call after another.
  unfoldable pub replies : Q → List (Call A) → List (Option A)
  replies q [] = []
  replies q (push x ∷ cs) = replies (queue.push q x) cs
  replies q (pop ∷ cs) = elim (queue.pop q) [
    | none ↦ none ∷ replies q cs
    | some (x, q') ↦ some x ∷ replies q' cs
  ]

module _ {Q A : Type 0} (queue : FifoQueue Q A) where
  -- A queue that meets the contract answers as a plain list does.
  pub replies-list_queue :
      (q : Q) (xs : List A) (cs : List (Call A))
      → queue.Holds q xs
      → replies queue q cs ≡ replies list_queue xs cs
  unfolding replies
  replies-list_queue q xs [] h = refl
  replies-list_queue q xs (push x ∷ cs) h =
      replies-list_queue (queue.push q x) (xs ++ x ∷ []) cs (queue.push-Holds q xs x h)
  replies-list_queue q [] (pop ∷ cs) h =
      rw (queue.pop-nil q h, replies) (ap (◌∷◌ none) (replies-list_queue q [] cs h))
  replies-list_queue q (x ∷ xs) (pop ∷ cs) h =
      let (q', popped, h') = queue.pop-cons q x xs h in
      rw (popped, replies) (ap (◌∷◌ (some x)) (replies-list_queue q' xs cs h'))
