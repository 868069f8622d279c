-- ===== src/Spsc/Refine/Push.antt =====
-- `push` against the contract of Spsc/Fifo.antt.
use formula_one_telemetry_si.Prelude.{
  ℕ, ◌+◌, ◌-◌, ◌%◌, ◌<◌, ◌≡◌, refl, sym, ap, ◌∙◌, Bool, true, false, some, List, [], ◌∷◌, ◌++◌,
  ◌==◌, ltb, length, set, get_elem?, arith, Bool-cases, inl, inr, append_assoc, get_elem?-set_self,
  lt→ltb, ==_iff,
}
use mathlib.Core.Path.{subst}
use native.Mathlib.Nat.{mod-lt}
use formula_one_telemetry_si.Spsc.{IsCapacity, SpscQueue, next, push, store, refresh_head}
use formula_one_telemetry_si.Spsc.Index.{next_at, room_test, full_test}
use formula_one_telemetry_si.Spsc.Fifo
use formula_one_telemetry_si.Spsc.Fifo.{Request, enqueue, dequeue, Reply}
use formula_one_telemetry_si.Spsc.Threads.{Shared, with_queue}
use formula_one_telemetry_si.Spsc.Threads.Inv.{Holds}
use formula_one_telemetry_si.Spsc.Threads.Frames.{Holds-refresh_head, Holds-write, Holds-publish}
use formula_one_telemetry_si.Spsc.Refine.{Represents, length_waiting}

module _ {T : Type 0} {capacity : ℕ} (valid : IsCapacity capacity) where
  -- The stores of a push that has room.
  stored :
      (s : Shared T) (xs : List T) (item : T) (v : Holds capacity s)
      → s.pushed ≡ s.popped ++ xs
      → length s.pushed + 1 < v.hc + capacity
      → Represents capacity (store s.queue item (next capacity s.tail)) (xs ++ item ∷ [])
  unfolding Holds-write
  stored s xs item v w r = record {
    history = _;
    now = refl;
    waiting = ap (λ (l : List T). l ++ item ∷ []) w ∙ append_assoc s.popped xs (item ∷ []);
    holds =
        Holds-publish capacity (with_queue s (record s.queue { buffer = set s.buffer s.tail item }))
          item (next capacity s.tail) (Holds-write capacity s item s.tail refl v)
          (next_at valid s.tail (length s.pushed) v.tail_at) r slot;
  }
    where
      below : s.tail < length s.buffer
      below =
          let two = valid.at_least_two in
          omega (arith, v.tail_at, v.size, mod-lt (length s.pushed) {m = capacity} (omega arith))

      slot : get_elem? (set s.buffer s.tail item) (length s.pushed % capacity) ≡ some item
      slot = rw (← v.tail_at) (get_elem?-set_self s.buffer s.tail item below)

  -- What a step of the ring is to do: the contract's answer, and its list represented.
  abbrev Puts : List T → T → SpscQueue T × Bool → Type 0
  Puts xs item r =
      let (ys, done) = Fifo.put (capacity - 1) xs item in (r.1 ≡ done) × Represents capacity r.0 ys

  Puts-room :
      (s : Shared T) (xs : List T) (item : T) (v : Holds capacity s)
      → s.pushed ≡ s.popped ++ xs
      → length s.pushed + 1 < v.hc + capacity
      → Puts xs item (store s.queue item (next capacity s.tail), true)
  unfolding Fifo.put
  Puts-room s xs item v w r =
      let few : ltb (length xs) (capacity - 1) ≡ true =
        lt→ltb (length xs) (capacity - 1)
          (omega (arith, length_waiting capacity s xs w, v.hc_le)) in
      rw few (refl, stored s xs item v w r)

  Puts-full :
      (s : Shared T) (xs : List T) (item : T)
      → Holds capacity s
      → s.pushed ≡ s.popped ++ xs
      → next capacity s.tail ≡ s.head
      → Puts xs item (refresh_head s.queue, false)
  unfolding Fifo.put
  Puts-full s xs item v w e = rw many (refl, rest)
    where
      full : length s.pushed + 1 ≡ length s.popped + capacity
      full =
          full_test capacity (length s.pushed) (length s.popped) (omega (arith, v.le_tc, v.tc_le))
            (omega (arith, v.room, v.hc_le))
            (sym (next_at valid s.tail (length s.pushed) v.tail_at) ∙ e ∙ v.head_at)

      many : ltb (length xs) (capacity - 1) ≡ false
      many = ground (arith, length_waiting capacity s xs w, full)

      rest : Represents capacity (refresh_head s.queue) xs
      rest = record {
        history = with_queue s (refresh_head s.queue);
        now = refl;
        waiting = w;
        holds = Holds-refresh_head capacity s v;
      }

  -- The producer's test against an index of a head `h` of which it knows.
  has_room :
      (s : Shared T) (h i : ℕ)
      → Holds capacity s
      → i ≡ h % capacity
      → length s.pushed < h + capacity
      → (next capacity s.tail == i) ≡ false
      → length s.pushed + 1 < h + capacity
  has_room s h i v e r test =
      room_test capacity (length s.pushed) h r
        (λ same. ground (arith, next_at valid s.tail (length s.pushed) v.tail_at))

  Puts-push :
      (s : Shared T) (xs : List T) (item : T)
      → Holds capacity s
      → s.pushed ≡ s.popped ++ xs
      → Puts xs item (push capacity s.queue item)
  unfolding push Holds-refresh_head
  Puts-push s xs item v w = elim (Bool-cases (next capacity s.tail == s.head_cache)) [
    | inl met ↦ elim (Bool-cases (next capacity s.tail == s.head)) [
      | inl full ↦ rw (met, full) (Puts-full s xs item v w ((==_iff _ _).0 full))
      | inr room ↦
          let r =
            has_room s (length s.popped) s.head v v.head_at (omega (arith, v.room, v.hc_le)) room in
          rw (met, room)
            (Puts-room (with_queue s (refresh_head s.queue)) xs item
              (Holds-refresh_head capacity s v) w r)
    ]
    | inr apart ↦
        rw apart
          (Puts-room s xs item v w (has_room s v.hc s.head_cache v v.head_cache_at v.room apart))
  ]

  -- `push` on a ring that holds `xs` returns what the contract returns, and leaves a ring that holds
  -- the contract's list.
  pub push_refines :
      (q : SpscQueue T) (xs : List T) (item : T)
      → Represents capacity q xs
      → let (q', done) = push capacity q item in
        let (ys, done') = Fifo.put (capacity - 1) xs item in
        (done ≡ done') × Represents capacity q' ys
  push_refines q xs item r =
      subst (λ p. Puts xs item (push capacity p item)) r.now
        (Puts-push r.history xs item r.holds r.waiting)
