-- ===== src/Spsc.antt =====
-- src/concurrency/spsc_queue.h: the bounded ring buffer between one producer and one consumer.
-- An index is a `size_t`, written as a number with its wrap at 2 ^ 64.
pub mod Index
pub mod Threads
pub mod Fifo
pub mod Refine
use formula_one_telemetry_si.Prelude.{
  ℕ, ◌+◌, ◌-◌, ◌%◌, ◌^◌, ◌≤◌, ◌<◌, ◌≡◌, bit_and, Bool, true, false, Option, none, List, ◌==◌,
  if◌then◌else◌, get_elem?, set, replicate,
}

-- `class SpscQueue`. The template's cache-line padding has no effect on what the fields hold.
pub record SpscQueue {ℓ} (T : Type ℓ) : Type ℓ where
  pub tail : ℕ
  pub head_cache : ℕ
  pub head : ℕ
  pub tail_cache : ℕ
  pub buffer : List T

-- The two `static_assert`s on `Capacity`, which is a `size_t`.
pub record IsCapacity (capacity : ℕ) : Type 0 where
  pub at_least_two : 2 ≤ capacity
  pub power_of_two : bit_and capacity (capacity - 1) ≡ 0
  pub fits : capacity < 2 ^ 64

module _ (capacity : ℕ) where
  -- `(i + 1) & MASK`
  unfoldable pub next : ℕ → ℕ
  next i = bit_and ((i + 1) % 2 ^ 64) (capacity - 1)

module _ {ℓ} {T : Type ℓ} where
  -- A new queue; `blank` is the value that `T{}` makes.
  abbrev pub init : ℕ → T → SpscQueue T
  init capacity blank = record {
    tail = 0;
    head_cache = 0;
    head = 0;
    tail_cache = 0;
    buffer = replicate capacity blank;
  }

  unfoldable pub empty : SpscQueue T → Bool
  empty q = q.head == q.tail

  unfoldable pub size_approx : ℕ → SpscQueue T → ℕ
  size_approx capacity q = bit_and ((q.tail + 2 ^ 64 - q.head) % 2 ^ 64) (capacity - 1)

  -- The two stores at the end of `push`.
  abbrev pub store : SpscQueue T → T → ℕ → SpscQueue T
  store q item n = record q { buffer = set q.buffer q.tail item; tail = n }

  abbrev pub refresh_head : SpscQueue T → SpscQueue T
  refresh_head q = record q { head_cache = q.head }

  abbrev pub refresh_tail : SpscQueue T → SpscQueue T
  refresh_tail q = record q { tail_cache = q.tail }

  -- `push`; its two overloads differ in how the item is copied only.
  unfoldable pub push : ℕ → SpscQueue T → T → SpscQueue T × Bool
  push capacity q item =
      let n = next capacity q.tail in
      if n == q.head_cache
      then (if n == q.head then (refresh_head q, false) else (store (refresh_head q) item n, true))
      else (store q item n, true)

  -- The end of `pop`: what is written to `out` (`none` for a read out of range), and the new head.
  abbrev pub take_item : ℕ → SpscQueue T → SpscQueue T × Bool × Option T
  take_item capacity q = (record q { head = next capacity q.head }, true, get_elem? q.buffer q.head)

  -- `pop`: the returned flag, and what goes through `out`.
  unfoldable pub pop : ℕ → SpscQueue T → SpscQueue T × Bool × Option T
  pop capacity q =
      if q.head == q.tail_cache
      then (if q.head == q.tail
          then (refresh_tail q, false, none)
          else take_item capacity (refresh_tail q))
      else take_item capacity q
