-- ===== src/Mpsc.antt =====
-- src/concurrency/mpsc_queue.h: the linked queue between many producers and one consumer, cut at its
-- accesses to what threads share. The allocator chooses an address for each node, any that holds
-- nothing, one given back before included. What only the consumer touches, the data of the node
-- after `tail_` and `tail_` itself, it reads and writes in the turn that deletes the old node.
pub mod Nodes
pub mod Inv
pub mod Keeps
pub mod Safety
pub mod Progress
pub mod Calls
use formula_one_telemetry_si.Prelude.{
  ℕ, Bool, true, false, Option, none, some, List, [], ◌∷◌, ◌++◌, ◌==◌, if◌then◌else◌, update,
}
use formula_one_telemetry_si.Mpsc.Nodes.{Node, Memory, lookup, write}

-- Where a producer stands in `push`. `value` is what it has put into its node.
pub data Producer (T : Type 0) : Type 0 where
  outside : Producer T
  exchanging : (new_node : ℕ) (value : T) → Producer T  -- before the exchange of `head_`
  linking : (prev_head new_node : ℕ) → Producer T  -- before the store to `prev_head->next`

-- Where the consumer stands in `pop`.
pub data Consumer : Type 0 where
  outside : Consumer
  taking : (next : ℕ) → Consumer  -- `next` is loaded, and not null

-- The test of `next`.
abbrev pub continue : Option ℕ → Consumer
continue none = outside
continue (some n) = taking n

abbrev pub is_null : Option ℕ → Bool
is_null none = true
is_null (some _) = false

-- `head_`, `tail_` and the nodes, with the values whose exchange or whose pop has taken effect, oldest
-- first. `fault` says that a thread has used an address where no node stands.
pub record MpscQueue (T : Type 0) : Type 0 where
  pub memory : Memory T
  pub head : ℕ
  pub tail : ℕ
  pub pushed : List T
  pub popped : List T
  pub fault : Bool

pub record System (T : Type 0) : Type 0 where
  pub queue : MpscQueue T
  pub open queue use *
  pub producers : ℕ → Producer T
  pub consumer : Consumer

module _ {T : Type 0} where
  -- The constructor, for the address of its node; `blank` is the value that `T{}` makes.
  abbrev pub init : T → ℕ → MpscQueue T
  init blank sentinel = record {
    memory = write [] sentinel (some (record { value = blank; next = none }));
    head = sentinel;
    tail = sentinel;
    pushed = [];
    popped = [];
    fault = false;
  }

  -- `new Node{std::move(value)}`. The allocator returns no address in use.
  unfoldable pub allocate : MpscQueue T → ℕ → T → Option (Node T) → MpscQueue T × Producer T
  allocate q a v none = (
    record q { memory = write q.memory a (some (record { value = v; next = none })) },
    exchanging a v,
  )
  allocate q a v (some _) = (q, outside)

  -- `prev_head->next.store(new_node)`, for what stands at `prev_head`.
  unfoldable pub link : MpscQueue T → ℕ → ℕ → Option (Node T) → MpscQueue T
  link q a b none = record q { fault = true }
  link q a b (some node) = record q {
    memory = write q.memory a (some (record node { next = some b }));
  }

  -- The next access of a producer, from `outside` the allocation at `a` for `push(v)`.
  unfoldable pub produce : MpscQueue T → ℕ → T → Producer T → MpscQueue T × Producer T
  produce q a v outside = allocate q a v (lookup q.memory a)
  produce q a v (exchanging n x) =
      (record q { head = n; pushed = q.pushed ++ x ∷ [] }, linking q.head n)
  produce q a v (linking prev n) = (link q prev n (lookup q.memory prev), outside)

  -- The load of `tail_->next` and its test, for what stands at `tail_`.
  unfoldable pub examine : MpscQueue T → Option (Node T) → MpscQueue T × Consumer
  examine q none = (record q { fault = true }, outside)
  examine q (some node) = (q, continue node.next)

-- `moved` is what a move leaves in the value that it moves from.
module _ {T : Type 0} (moved : T → T) where
  -- The rest of a pop, for what stands at `next` and at `tail_`: the value goes to `out`, `next` becomes
  -- the tail, and the old tail is deleted.
  unfoldable pub take_node : MpscQueue T → ℕ → Option (Node T) → Option (Node T) → MpscQueue T
  take_node q n (some node) (some old) = record q {
    memory = write (write q.memory n (some (record node { value = moved node.value }))) q.tail none;
    tail = n;
    popped = q.popped ++ node.value ∷ [];
  }
  take_node q n (some node) none = record q { fault = true }
  take_node q n none c = record q { fault = true }

  -- The next access of the consumer, from `outside` that of `pop(out)`.
  unfoldable pub consume : MpscQueue T → Consumer → MpscQueue T × Consumer
  consume q outside = examine q (lookup q.memory q.tail)
  consume q (taking n) = (take_node q n (lookup q.memory n) (lookup q.memory q.tail), outside)

-- Whose turn it is. The address and the value matter only where the producer stands outside `push`.
pub data Turn (T : Type 0) : Type 0 where
  producer : (i address : ℕ) (value : T) → Turn T
  consumer : Turn T

module _ {T : Type 0} (moved : T → T) where
  abbrev pub step : System T → Turn T → System T
  step s (producer i a v) =
      let (q, p) = produce s.queue a v (s.producers i) in
      record s { queue = q; producers = update s.producers i p }
  step s consumer =
      let (q, c) = consume moved s.queue s.consumer in record s { queue = q; consumer = c }

  unfoldable pub run : System T → List (Turn T) → System T
  run s [] = s
  run s (t ∷ ts) = run (step s t) ts

module _ {T : Type 0} where
  -- A new queue, with every thread outside its call.
  abbrev pub start : T → ℕ → System T
  start blank sentinel = record {
    queue = init blank sentinel;
    producers = λ _. outside;
    consumer = outside;
  }

  -- `tail_->next.load() == nullptr`, for what stands at `tail_`; `none` is a fault.
  abbrev pub null_test : Option (Node T) → Option Bool
  null_test none = none
  null_test (some node) = some (is_null node.next)

  unfoldable pub empty : MpscQueue T → Option Bool
  empty q = null_test (lookup q.memory q.tail)
