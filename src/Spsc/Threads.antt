-- ===== src/Spsc/Threads.antt =====
-- The calls of `push` and `pop` of src/concurrency/spsc_queue.h cut at their shared accesses, for
-- two threads that interleave in any order. Each load or store of an atomic index and each access
-- to the buffer is one turn; an acquire load sees every store made before it.
pub mod Inv
pub mod Frames
pub mod Keeps
pub mod Safety
use formula_one_telemetry_si.Prelude.{
  ℕ, Option, none, some, List, [], ◌∷◌, ◌++◌, ◌==◌, if◌then◌else◌, get_elem?, set,
}
use formula_one_telemetry_si.Spsc.{SpscQueue, init, next, refresh_head, refresh_tail}

-- Where the producer stands in `push`, with the local variables `item`, `tail` and `next`.
pub data Producer {ℓ} (T : Type ℓ) : Type ℓ where
  outside : Producer T
  refreshing : (item : T) (tail next : ℕ) → Producer T  -- before the load of `head_`
  writing : (item : T) (tail next : ℕ) → Producer T  -- before the write to the buffer
  publishing : (item : T) (next : ℕ) → Producer T  -- before the store to `tail_`

-- Where the consumer stands in `pop`, with the local variable `head` and what `out` holds.
pub data Consumer {ℓ} (T : Type ℓ) : Type ℓ where
  outside : Consumer T
  refreshing : (head : ℕ) → Consumer T  -- before the load of `tail_`
  reading : (head : ℕ) → Consumer T  -- before the read of the buffer
  releasing : (head : ℕ) (out : T) → Consumer T  -- before the store to `head_`
  fault : Consumer T  -- has read outside the buffer

-- The queue, with the items of the pushes and pops that have taken effect so far, oldest first.
pub record Shared {ℓ} (T : Type ℓ) : Type ℓ where
  pub queue : SpscQueue T
  pub open queue use *
  pub pushed : List T
  pub popped : List T

pub record System {ℓ} (T : Type ℓ) : Type ℓ where
  pub shared : Shared T
  pub producer : Producer T
  pub consumer : Consumer T

module _ {ℓ} {T : Type ℓ} where
  abbrev pub with_queue : Shared T → SpscQueue T → Shared T
  with_queue s q = record s { queue = q }

  -- The store to `tail_`: the push takes effect.
  abbrev pub publish : Shared T → T → ℕ → Shared T
  publish s item n = record {
    queue = record s.queue { tail = n };
    pushed = s.pushed ++ item ∷ [];
    popped = s.popped;
  }

  -- The store to `head_`: the pop takes effect.
  abbrev pub release : Shared T → T → ℕ → Shared T
  release s out n = record {
    queue = record s.queue { head = n };
    pushed = s.pushed;
    popped = s.popped ++ out ∷ [];
  }

module _ {ℓ} {T : Type ℓ} (capacity : ℕ) where
  -- The next access of the producer; from `outside` it calls `push(item)`.
  unfoldable pub produce : T → Shared T → Producer T → Shared T × Producer T
  produce item s outside =
      let n = next capacity s.tail in
      (s, if n == s.head_cache then refreshing item s.tail n else writing item s.tail n)
  produce _ s (refreshing item t n) =
      (with_queue s (refresh_head s.queue), if n == s.head then outside else writing item t n)
  produce _ s (writing item t n) =
      (with_queue s (record s.queue { buffer = set s.buffer t item }), publishing item n)
  produce _ s (publishing item n) = (publish s item n, outside)

  abbrev pub fetch : ℕ → Option T → Consumer T
  fetch h none = fault
  fetch h (some out) = releasing h out

  -- The next access of the consumer; from `outside` it calls `pop(out)`.
  unfoldable pub consume : Shared T → Consumer T → Shared T × Consumer T
  consume s outside = (s, if s.head == s.tail_cache then refreshing s.head else reading s.head)
  consume s (refreshing h) =
      (with_queue s (refresh_tail s.queue), if h == s.tail then outside else reading h)
  consume s (reading h) = (s, fetch h (get_elem? s.buffer h))
  consume s (releasing h out) = (release s out (next capacity h), outside)
  consume s fault = (s, fault)

-- Whose turn it is. The item matters only where the producer stands outside `push`.
pub data Turn {ℓ} (T : Type ℓ) : Type ℓ where
  producer : T → Turn T
  consumer : Turn T

module _ {ℓ} {T : Type ℓ} (capacity : ℕ) where
  abbrev pub step : System T → Turn T → System T
  step s (producer item) =
      let (h, p) = produce capacity item s.shared s.producer in
      record s { shared = h; producer = p }
  step s consumer =
      let (h, c) = consume capacity s.shared s.consumer in record s { shared = h; consumer = c }

  unfoldable pub run : System T → List (Turn T) → System T
  run s [] = s
  run s (t ∷ ts) = run (step s t) ts

  -- Both threads outside their calls, over a new queue.
  abbrev pub start : T → System T
  start blank = record {
    shared = record { queue = init capacity blank; pushed = []; popped = [] };
    producer = outside;
    consumer = outside;
  }
