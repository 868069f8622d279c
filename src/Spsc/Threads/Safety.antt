-- ===== src/Spsc/Threads/Safety.antt =====
-- What holds after any interleaving of a producer's and a consumer's accesses to the ring.
use formula_one_telemetry_si.Prelude.{
  ℕ, ◌+◌, ◌-◌, ◌≤◌, ◌<◌, ◌≡◌, ◌≢◌, ◌↔◌, sym, ap, ◌∙◌, List, [], ◌∷◌, ◌++◌, length, drop, arith,
  length-drop, take-append-drop, take_all, ◌%◌,
}
use mathlib.Core.Path.{subst, subst₂}
use native.Mathlib.Nat.{mod-lt}
use formula_one_telemetry_si.Spsc.{IsCapacity}
use formula_one_telemetry_si.Spsc.Index.{mod_injective, slot_ne, full_test, room_test, count_test}
use formula_one_telemetry_si.Spsc.Threads.{
  System, Shared, Producer, Consumer, outside, refreshing, writing, reading, fault, Turn, step, run,
  start, produce, consume,
}
use formula_one_telemetry_si.Spsc.Threads.Inv.{Inv, ConsumerOk}
use formula_one_telemetry_si.Spsc.Threads.Frames.{Holds-start}
use formula_one_telemetry_si.Spsc.Threads.Keeps.{produce-Inv, consume-Inv}

-- A state that some interleaving reaches from a new queue.
abbrev pub IsReachable {ℓ} : {T : Type ℓ} → ℕ → System T → Type ℓ
IsReachable {T} capacity s =
    (blank : T) × (ts : List (Turn T)) × (run capacity (start capacity blank) ts ≡ s)

module _ {T : Type 0} {capacity : ℕ} (valid : IsCapacity capacity) where
  abbrev pub IsSound : System T → Type 0
  IsSound s = Inv capacity s.shared s.producer s.consumer

  run-IsSound : (ts : List (Turn T)) (s : System T) → IsSound s → IsSound (run capacity s ts)
  unfolding run
  run-IsSound [] s v = v
  run-IsSound (Turn.producer item ∷ ts) s v =
      run-IsSound ts _ (produce-Inv valid item s.shared s.producer s.consumer v)
  run-IsSound (Turn.consumer ∷ ts) s v =
      run-IsSound ts _ (consume-Inv valid s.shared s.producer s.consumer v)

  start-IsSound : (blank : T) → IsSound (start capacity blank)
  start-IsSound blank = record {
    holds = Holds-start valid blank;
    producer_ok = tt;
    consumer_ok = tt;
  }

  reached : {s : System T} → IsReachable capacity s → IsSound s
  reached (blank, ts, e) =
      subst IsSound e (run-IsSound ts (start capacity blank) (start-IsSound blank))

  -- In a reachable state of a ring of a valid capacity the items popped are the first of the items
  -- pushed, in order, none lost and none twice, and fewer than `capacity` items wait.
  pub pushed-eq-popped-append :
      (s : System T)
      → IsReachable capacity s
      → (waiting : List T) × (s.shared.pushed ≡ s.shared.popped ++ waiting)
        × (length waiting < capacity)
  pushed-eq-popped-append s r =
      let h = s.shared in
      let v = reached r in
      let k : ℕ = length h.popped in
      (
        drop k h.pushed,
        sym (take-append-drop k h.pushed) ∙ ap (λ (l : List T). l ++ drop k h.pushed) (sym v.fifo),
        omega (arith, length-drop k h.pushed, v.room, v.hc_le),
      )

  -- In a reachable state of a ring of a valid capacity the consumer has not read outside the buffer.
  pub consumer-ne-fault : (s : System T) → IsReachable capacity s → s.consumer ≢ fault
  consumer-ne-fault s r e =
      subst (ConsumerOk capacity (reached r).tc s.shared) e (reached r).consumer_ok

  apart :
      (s : Shared T) (item : T) (t n h : ℕ)
      → Inv capacity s (writing item t n) (reading h)
      → (t ≢ h) × (t < length s.buffer) × (h < length s.buffer)
  apart s item t n h v =
      let at_least_two = valid.at_least_two in
      let low : length s.popped % capacity < capacity = mod-lt (length s.popped) (omega arith) in
      let high : length s.pushed % capacity < capacity = mod-lt (length s.pushed) (omega arith) in
      let ne = slot_ne capacity (length s.pushed) (length s.popped) (omega arith) (omega arith) in
      omega arith

  -- In a reachable state of a ring of a valid capacity, where the producer is about to write a slot
  -- and the consumer about to read one, these are two different slots of the buffer.
  pub slots_apart :
      (s : System T) (item : T) (t n h : ℕ)
      → IsReachable capacity s
      → s.producer ≡ writing item t n
      → s.consumer ≡ reading h
      → (t ≢ h) × (t < length s.shared.buffer) × (h < length s.shared.buffer)
  slots_apart s item t n h r p c =
      apart s.shared item t n h (subst₂ (Inv capacity s.shared) p c (reached r))

  refuses :
      (s : Shared T) (c : Consumer T) (item other : T) (t n : ℕ)
      → Inv capacity s (refreshing item t n) c
      → ((produce capacity other s (refreshing item t n)).1 ≡ outside)
        ↔ (length s.pushed ≡ length s.popped + (capacity - 1))
  unfolding produce
  refuses s c item other t n v = (ground (arith, full, two), ground (arith, room, two))
    where
      full :
          (length s.pushed + 1) % capacity ≡ length s.popped % capacity
          → length s.pushed + 1 ≡ length s.popped + capacity
      full = full_test capacity (length s.pushed) (length s.popped) (omega arith) (omega arith)

      room :
          (length s.pushed + 1) % capacity ≢ length s.popped % capacity
          → length s.pushed + 1 < length s.popped + capacity
      room = room_test capacity (length s.pushed) (length s.popped) (omega arith)

      two : 2 ≤ capacity
      two = valid.at_least_two

  -- In a reachable state of a ring of a valid capacity, where `push` is about to load `head_`, the
  -- load makes the push give up exactly when the ring then holds `capacity - 1` items.
  pub refuses_iff_full :
      (s : System T) (item other : T) (t n : ℕ)
      → IsReachable capacity s
      → s.producer ≡ refreshing item t n
      → ((step capacity s (Turn.producer other)).producer ≡ outside)
        ↔ (length s.shared.pushed ≡ length s.shared.popped + (capacity - 1))
  refuses_iff_full s item other t n r e =
      let claim = λ (p : Producer T).
        ((produce capacity other s.shared p).1 ≡ outside)
        ↔ (length s.shared.pushed ≡ length s.shared.popped + (capacity - 1)) in
      subst claim (sym e) (
        refuses s.shared s.consumer item other t n
          (subst (λ p. Inv capacity s.shared p s.consumer) e (reached r)))

  gives_up :
      (s : Shared T) (p : Producer T) (h : ℕ)
      → Inv capacity s p (refreshing h)
      → ((consume capacity s (refreshing h)).1 ≡ outside) ↔ (s.pushed ≡ s.popped)
  unfolding consume
  gives_up s p h v = (ground (arith, test, all), λ same. ground (arith, ap length same))
    where
      test :
          length s.popped % capacity ≢ length s.pushed % capacity
          → length s.popped < length s.pushed
      test = count_test capacity (length s.popped) (length s.pushed) (omega arith)

      same_count :
          length s.popped % capacity ≡ length s.pushed % capacity
          → length s.popped ≡ length s.pushed
      same_count =
          mod_injective capacity (length s.popped) (length s.pushed) (omega arith) (omega arith)

      all : length s.popped % capacity ≡ length s.pushed % capacity → s.pushed ≡ s.popped
      all e = sym (v.fifo ∙ take_all (length s.popped) s.pushed (omega (arith, same_count e)))

  -- In a reachable state of a ring of a valid capacity, where `pop` is about to load `tail_`, the
  -- load makes the pop give up exactly when every item pushed has been popped.
  pub gives_up_iff_empty :
      (s : System T) (h : ℕ)
      → IsReachable capacity s
      → s.consumer ≡ refreshing h
      → ((step capacity s Turn.consumer).consumer ≡ outside) ↔ (s.shared.pushed ≡ s.shared.popped)
  gives_up_iff_empty s h r e =
      let claim = λ (c : Consumer T).
        ((consume capacity s.shared c).1 ≡ outside) ↔ (s.shared.pushed ≡ s.shared.popped) in
      subst claim (sym e)
        (gives_up s.shared s.producer h (subst (Inv capacity s.shared s.producer) e (reached r)))
