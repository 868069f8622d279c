-- ===== src/Spsc/Threads/Inv.antt =====
-- The invariant of the two threads over the ring.
use formula_one_telemetry_si.Prelude.{ℕ, ◌+◌, ◌%◌, ◌≤◌, ◌<◌, ◌≡◌, some, get_elem?, length, take}
use formula_one_telemetry_si.Spsc.Threads.{
  Producer, Consumer, outside, refreshing, writing, publishing, reading, releasing, fault, Shared,
}

module _ {T : Type 0} (capacity : ℕ) where
  -- What the producer's locals say: `hc` is the count of pops that it knows of.
  abbrev pub ProducerOk : ℕ → Shared T → Producer T → Type 0
  ProducerOk hc s outside = Unit
  ProducerOk hc s (refreshing item t n) = (t ≡ s.tail) × (n ≡ (length s.pushed + 1) % capacity)
  ProducerOk hc s (writing item t n) =
      (t ≡ s.tail) × (n ≡ (length s.pushed + 1) % capacity) × (length s.pushed + 1 < hc + capacity)
  ProducerOk hc s (publishing item n) =
      (n ≡ (length s.pushed + 1) % capacity)
      × (length s.pushed + 1 < hc + capacity)
      × (get_elem? s.buffer (length s.pushed % capacity) ≡ some item)

  -- What the consumer's locals say: `tc` is the count of pushes that it knows of.
  abbrev pub ConsumerOk : ℕ → Shared T → Consumer T → Type 0
  ConsumerOk tc s outside = Unit
  ConsumerOk tc s (refreshing h) = (h ≡ s.head)
  ConsumerOk tc s (reading h) = (h ≡ s.head) × (length s.popped < tc)
  ConsumerOk tc s (releasing h out) =
      (h ≡ s.head) × (length s.popped < tc) × (get_elem? s.pushed (length s.popped) ≡ some out)
  ConsumerOk tc s fault = ⊥

  -- The indices count the calls modulo the capacity, the caches lag behind them by less than a
  -- turn, and the slots between the two counts hold the items that wait.
  pub record Holds (s : Shared T) : Type 0 where
    pub hc : ℕ
    pub tc : ℕ
    pub size : length s.buffer ≡ capacity
    pub tail_at : s.tail ≡ length s.pushed % capacity
    pub head_at : s.head ≡ length s.popped % capacity
    pub head_cache_at : s.head_cache ≡ hc % capacity
    pub tail_cache_at : s.tail_cache ≡ tc % capacity
    pub hc_le : hc ≤ length s.popped
    pub le_tc : length s.popped ≤ tc
    pub tc_le : tc ≤ length s.pushed
    pub room : length s.pushed < hc + capacity
    pub slots :
        (i : ℕ)
        → length s.popped ≤ i
        → i < length s.pushed
        → get_elem? s.buffer (i % capacity) ≡ get_elem? s.pushed i
    pub fifo : s.popped ≡ take (length s.popped) s.pushed

  pub record Inv (s : Shared T) (p : Producer T) (c : Consumer T) : Type 0 where
    pub holds : Holds s
    pub open holds use *
    pub producer_ok : ProducerOk holds.hc s p
    pub consumer_ok : ConsumerOk holds.tc s c
