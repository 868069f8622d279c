-- ===== src/Spsc/Threads/Frames.antt =====
-- What each kind of access to the shared memory keeps of the invariant.
use formula_one_telemetry_si.Prelude.{
  length-replicate, refl, ℕ, suc, ◌+◌, ◌%◌, ◌≤◌, ◌<◌, ◌≡◌, ◌≢◌, sym, ◌∙◌, some, List, [], ◌∷◌, ◌++◌,
  get_elem?, set, length, take, arith, dec_lt, length-append, length-set, get_elem?-set_ne,
  get_elem?-append_left, get_elem?-append_last, take-suc, take-append_left, ap,
}
use formula_one_telemetry_si.Spsc.{IsCapacity, refresh_head, refresh_tail}
use formula_one_telemetry_si.Spsc.Index.{slot_ne}
use formula_one_telemetry_si.Spsc.Threads.Inv.{Holds, ProducerOk, ConsumerOk}
use formula_one_telemetry_si.Spsc.Threads.{
  start, Producer, Consumer, outside, refreshing, writing, publishing, reading, releasing, fault,
  Shared, publish, release, with_queue,
}

module _ {T : Type 0} (capacity : ℕ) where
  -- What the consumer knows survives an access of the producer, which keeps the head and the
  -- items pushed before.
  pub consumer_frame :
      (tc : ℕ) (s s' : Shared T) (c : Consumer T)
      → s'.head ≡ s.head
      → s'.popped ≡ s.popped
      → ((out : T)
          → get_elem? s.pushed (length s.popped) ≡ some out
          → length s.popped < tc
          → get_elem? s'.pushed (length s.popped) ≡ some out)
      → ConsumerOk capacity tc s c
      → ConsumerOk capacity tc s' c
  consumer_frame tc s s' outside h p k v = tt
  consumer_frame tc s s' (refreshing x) h p k v = ground arith
  consumer_frame tc s s' (reading x) h p k v = ground arith
  consumer_frame tc s s' (releasing x out) h p k v = ground (arith, k out v.2 v.1)
  consumer_frame tc s s' fault h p k v = v

  pub producer_frame :
      (hc : ℕ) (s s' : Shared T) (p : Producer T)
      → s'.tail ≡ s.tail
      → s'.pushed ≡ s.pushed
      → s'.buffer ≡ s.buffer
      → ProducerOk capacity hc s p
      → ProducerOk capacity hc s' p
  producer_frame hc s s' outside h k b v = tt
  producer_frame hc s s' (refreshing item t n) h k b v = ground arith
  producer_frame hc s s' (writing item t n) h k b v = ground arith
  producer_frame hc s s' (publishing item n) h k b v = ground arith

  -- The write to the slot at the tail leaves the items that wait alone.
  pub written :
      (s : Shared T) (item : T) (t : ℕ) (v : Holds capacity s)
      → t ≡ s.tail
      → (i : ℕ) → length s.popped ≤ i
      → i < length s.pushed
      → get_elem? (set s.buffer t item) (i % capacity) ≡ get_elem? s.pushed i
  written s item t v e i l r =
      let apart : i % capacity ≢ length s.pushed % capacity =
        slot_ne capacity (length s.pushed) i r (omega (arith, v.room, v.hc_le)) in
      get_elem?-set_ne s.buffer item (omega (arith, v.tail_at)) ∙ v.slots i l r

  unfoldable pub Holds-write :
      (s : Shared T) (item : T) (t : ℕ)
      → t ≡ s.tail
      → Holds capacity s
      → Holds capacity (with_queue s (record s.queue { buffer = set s.buffer t item }))
  Holds-write s item t e v = record {
    hc = v.hc;
    tc = v.tc;
    size = length-set s.buffer t item ∙ v.size;
    tail_at = v.tail_at;
    head_at = v.head_at;
    head_cache_at = v.head_cache_at;
    tail_cache_at = v.tail_cache_at;
    hc_le = v.hc_le;
    le_tc = v.le_tc;
    tc_le = v.tc_le;
    room = v.room;
    slots = written s item t v e;
    fifo = v.fifo;
  }

  pub published :
      (s : Shared T) (item : T)
      → (v : Holds capacity s) → get_elem? s.buffer (length s.pushed % capacity) ≡ some item
      → (i : ℕ) → length s.popped ≤ i
      → i < length (s.pushed ++ item ∷ [])
      → get_elem? s.buffer (i % capacity) ≡ get_elem? (s.pushed ++ item ∷ []) i
  published s item v b i l r = elim (dec_lt i (length s.pushed)) [
    | yes old ↦ v.slots i l old ∙ sym (get_elem?-append_left s.pushed (item ∷ []) i old)
    | no new ↦
        let last : i ≡ length s.pushed = omega (arith, length-append s.pushed (item ∷ [])) in
        rw (get_elem?-append_last s.pushed item i last, last) b
  ]

  unfoldable pub Holds-publish :
      (s : Shared T) (item : T) (n : ℕ) (v : Holds capacity s)
      → n ≡ (length s.pushed + 1) % capacity
      → length s.pushed + 1 < v.hc + capacity
      → get_elem? s.buffer (length s.pushed % capacity) ≡ some item
      → Holds capacity (publish s item n)
  Holds-publish s item n v e r b =
      let more : length (s.pushed ++ item ∷ []) ≡ length s.pushed + 1 =
        omega (arith, length-append s.pushed (item ∷ [])) in
      record {
        hc = v.hc;
        tc = v.tc;
        size = v.size;
        tail_at = rw more e;
        head_at = v.head_at;
        head_cache_at = v.head_cache_at;
        tail_cache_at = v.tail_cache_at;
        hc_le = v.hc_le;
        le_tc = v.le_tc;
        tc_le = omega (arith, v.tc_le);
        room = rw more r;
        slots = published s item v b;
        fifo =
            v.fifo
            ∙ sym (
                take-append_left (length s.popped) s.pushed (item ∷ [])
                  (omega (arith, v.le_tc, v.tc_le)));
      }

  unfoldable pub Holds-refresh_head :
      (s : Shared T) → Holds capacity s → Holds capacity (with_queue s (refresh_head s.queue))
  Holds-refresh_head s v = record {
    hc = length s.popped;
    tc = v.tc;
    size = v.size;
    tail_at = v.tail_at;
    head_at = v.head_at;
    head_cache_at = v.head_at;
    tail_cache_at = v.tail_cache_at;
    hc_le = omega arith;
    le_tc = v.le_tc;
    tc_le = v.tc_le;
    room = omega (arith, v.room, v.hc_le);
    slots = v.slots;
    fifo = v.fifo;
  }

  unfoldable pub Holds-refresh_tail :
      (s : Shared T) → Holds capacity s → Holds capacity (with_queue s (refresh_tail s.queue))
  Holds-refresh_tail s v = record {
    hc = v.hc;
    tc = length s.pushed;
    size = v.size;
    tail_at = v.tail_at;
    head_at = v.head_at;
    head_cache_at = v.head_cache_at;
    tail_cache_at = v.tail_at;
    hc_le = v.hc_le;
    le_tc = omega (arith, v.le_tc, v.tc_le);
    tc_le = omega arith;
    room = v.room;
    slots = v.slots;
    fifo = v.fifo;
  }

  unfoldable pub Holds-release :
      (s : Shared T) (out : T) (n : ℕ) (v : Holds capacity s)
      → n ≡ (length s.popped + 1) % capacity
      → length s.popped < v.tc
      → get_elem? s.pushed (length s.popped) ≡ some out
      → Holds capacity (release s out n)
  Holds-release s out n v e r b =
      let more : length (s.popped ++ out ∷ []) ≡ length s.popped + 1 =
        omega (arith, length-append s.popped (out ∷ [])) in
      let grown : length (s.popped ++ out ∷ []) ≡ suc (length s.popped) = omega (arith, more) in
      record {
        hc = v.hc;
        tc = v.tc;
        size = v.size;
        tail_at = v.tail_at;
        head_at = rw more e;
        head_cache_at = v.head_cache_at;
        tail_cache_at = v.tail_cache_at;
        hc_le = omega (arith, v.hc_le);
        le_tc = omega arith;
        tc_le = v.tc_le;
        room = v.room;
        slots = λ i l h. v.slots i (omega (arith)) h;
        fifo =
            ap (λ (l : List T). l ++ out ∷ []) v.fifo
            ∙ sym (take-suc s.pushed (length s.popped) out b)
            ∙ sym (ap (λ (k : ℕ). take k s.pushed) grown);
      }

-- A new queue keeps the invariant, with no call counted.
unfoldable pub Holds-start :
    {T : Type 0} {capacity : ℕ}
    → IsCapacity capacity
    → (blank : T) → Holds capacity (start capacity blank).shared
Holds-start {capacity} valid blank =
    let at_zero : 0 ≡ 0 % capacity = omega (arith, valid.at_least_two) in
    record {
      hc = 0;
      tc = 0;
      size = length-replicate capacity blank;
      tail_at = at_zero;
      head_at = at_zero;
      head_cache_at = at_zero;
      tail_cache_at = at_zero;
      hc_le = omega arith;
      le_tc = omega arith;
      tc_le = omega arith;
      room = omega (arith, valid.at_least_two);
      slots = λ i l r. absurd (omega arith);
      fifo = refl;
    }
