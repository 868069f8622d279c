-- ===== src/Spsc/Threads/Keeps.antt =====
-- Every access of either thread keeps the invariant.
use native.Mathlib.Nat.{mod-lt}
use formula_one_telemetry_si.Prelude.{
  ℕ, ◌%◌, ◌<◌, ◌≡◌, refl, ◌∙◌, some, [], ◌∷◌, get_elem?, set, length, arith, get_elem?-set_self,
  get_elem?-append_left, get_elem?_of_lt, ap,
}
use formula_one_telemetry_si.Spsc.{IsCapacity, next, refresh_head, refresh_tail}
use formula_one_telemetry_si.Spsc.Index.{next_at, room_test, count_test}
use formula_one_telemetry_si.Spsc.Threads.Frames.{
  Holds-refresh_head, Holds-refresh_tail, Holds-write, Holds-publish, Holds-release, consumer_frame,
  producer_frame,
}
use formula_one_telemetry_si.Spsc.Threads.Inv.{Inv}
use formula_one_telemetry_si.Spsc.Threads.{
  Producer, Consumer, outside, refreshing, writing, publishing, reading, releasing, fault, Shared,
  produce, consume, publish, release, with_queue,
}

module _ {T : Type 0} {capacity : ℕ} (valid : IsCapacity capacity) where
  pub produce-Inv :
      (item : T) (s : Shared T) (p : Producer T) (c : Consumer T)
      → Inv capacity s p c
      → let (s', p') = produce capacity item s p in Inv capacity s' p' c
  unfolding produce Holds-refresh_head Holds-write Holds-publish
  produce-Inv item s outside c v = record {
    holds = v.holds;
    producer_ok = ground (
      arith,
      next_at valid s.tail (length s.pushed) v.tail_at,
      room_test capacity (length s.pushed) v.hc v.room,
    );
    consumer_ok = v.consumer_ok;
  }
  produce-Inv _ s (refreshing item t n) c v = record {
    holds = Holds-refresh_head capacity s v.holds;
    producer_ok = ground (arith, room_test capacity (length s.pushed) (length s.popped));
    consumer_ok =
        consumer_frame capacity v.tc s (with_queue s (refresh_head s.queue)) c refl refl
          (λ out e l. e) v.consumer_ok;
  }
  produce-Inv _ s (writing item t n) c v = record {
    holds = Holds-write capacity s item t v.producer_ok.0 v.holds;
    producer_ok = (v.producer_ok.1, v.producer_ok.2, slot);
    consumer_ok =
        consumer_frame capacity v.tc s
          (with_queue s (record s.queue { buffer = set s.buffer t item })) c refl refl
          (λ out e l. e) v.consumer_ok;
  }
    where
      at : t ≡ length s.pushed % capacity
      at = v.producer_ok.0 ∙ v.tail_at

      slot : get_elem? (set s.buffer t item) (length s.pushed % capacity) ≡ some item
      slot = rw (← at) (
          get_elem?-set_self s.buffer t item (
            omega (
              arith,
              v.size,
              mod-lt (length s.pushed) {m = capacity} (omega (arith, valid.at_least_two)),
            )))
  produce-Inv _ s (publishing item n) c v = record {
    holds = Holds-publish capacity s item n v.holds v.producer_ok.0 v.producer_ok.1 v.producer_ok.2;
    producer_ok = tt;
    consumer_ok =
        consumer_frame capacity v.tc s (publish s item n) c refl refl
          (λ out e l. get_elem?-append_left s.pushed (item ∷ []) _ (omega (arith, v.tc_le)) ∙ e)
          v.consumer_ok;
  }

  pub consume-Inv :
      (s : Shared T) (p : Producer T) (c : Consumer T)
      → Inv capacity s p c
      → let (s', c') = consume capacity s c in Inv capacity s' p c'
  unfolding consume Holds-refresh_tail Holds-release
  consume-Inv s p outside v = record {
    holds = v.holds;
    producer_ok = v.producer_ok;
    consumer_ok = ground (arith, count_test capacity (length s.popped) v.tc v.le_tc);
  }
  consume-Inv s p (refreshing h) v = record {
    holds = Holds-refresh_tail capacity s v.holds;
    producer_ok =
        producer_frame capacity v.hc s (with_queue s (refresh_tail s.queue)) p refl refl refl
          v.producer_ok;
    consumer_ok = ground (arith, count_test capacity (length s.popped) (length s.pushed));
  }
  consume-Inv s p (reading h) v =
      let waits : length s.popped < length s.pushed = omega (arith, v.consumer_ok.1, v.tc_le) in
      let (out, e) = get_elem?_of_lt s.pushed (length s.popped) waits in
      let found : get_elem? s.buffer h ≡ some out =
        ap (get_elem? s.buffer) (v.consumer_ok.0 ∙ v.head_at)
        ∙ v.slots (length s.popped) (omega arith) waits
        ∙ e in
      rw found (record {
        holds = v.holds;
        producer_ok = v.producer_ok;
        consumer_ok = (v.consumer_ok.0, v.consumer_ok.1, e);
      })
  consume-Inv s p (releasing h out) v = record {
    holds =
        Holds-release capacity s out (next capacity h) v.holds
          (next_at valid h (length s.popped) (v.consumer_ok.0 ∙ v.head_at)) v.consumer_ok.1
          v.consumer_ok.2;
    producer_ok =
        producer_frame capacity v.hc s (release s out (next capacity h)) p refl refl refl
          v.producer_ok;
    consumer_ok = tt;
  }
  consume-Inv s p fault v = v
