-- ===== src/LapTimes/Pipeline.antt =====
-- The ring between the generator and the consumer, from the start of the race to the end of the
-- consumer's thread: the pushes of the one and the rounds of the other in any order, a call of the ring
-- at a time, and the last loop once a stop is requested.
use formula_one_telemetry_si.Prelude.{
  ℕ, ◌≤◌, ◌<◌, ◌≡◌, refl, sym, ap, ◌∙◌, true, false, some, List, [], ◌∷◌, ◌++◌, append_assoc,
  length, if◌then◌else◌, Bool-cases, ◌⊎◌, inl, inr, ◌-◌, ltb, arith,
}
use mathlib.Core.Path.{subst}
use formula_one_telemetry_si.Floats.{Floats}
use formula_one_telemetry_si.Types.{TelemetryFrame}
use formula_one_telemetry_si.Spsc.{IsCapacity, SpscQueue, init, push}
use formula_one_telemetry_si.Spsc.Fifo.{put, get}
use formula_one_telemetry_si.Spsc.Refine.{Represents, length_waiting}
use formula_one_telemetry_si.Spsc.Refine.Push.{push_refines}
use formula_one_telemetry_si.Spsc.Refine.Pop.{pop_refines}
use formula_one_telemetry_si.Spsc.Refine.Runs.{init-Represents}
use formula_one_telemetry_si.RaceState.{RaceState}
use formula_one_telemetry_si.LapTimes.{LapTimeConsumer, consume, poll, drain}
use formula_one_telemetry_si.LapTimes.Claims.{consume_all, drain_consumes}

-- A push of the generator, or a round of the consumer's first loop.
pub data Turn (F : Type 0) : Type 0 where
  offer : (frame : TelemetryFrame F) → Turn F
  round : Turn F

-- The consumer with its ring, and the frames that the ring has accepted, oldest first.
pub record Pipeline (F : Type 0) : Type 0 where
  pub consumer : LapTimeConsumer F
  pub accepted : List (TelemetryFrame F)

module _ {F : Type 0} ⦃f : Floats F⦄ where
  abbrev pub new_pipeline : ℕ → TelemetryFrame F → RaceState F → Pipeline F
  new_pipeline capacity blank race = record {
    consumer = record { queue = init capacity blank; race_state = race };
    accepted = [];
  }

  -- A frame that finds the ring full is dropped.
  unfoldable pub step : ℕ → Pipeline F → Turn F → Pipeline F
  step capacity p (offer frame) =
      let (q, done) = push capacity p.consumer.queue frame in
      record {
        consumer = record p.consumer { queue = q };
        accepted = if done then p.accepted ++ frame ∷ [] else p.accepted;
      }
  step capacity p round = record p { consumer = poll capacity p.consumer }

  unfoldable pub run : ℕ → Pipeline F → List (Turn F) → Pipeline F
  run capacity p [] = p
  run capacity p (t ∷ ts) = run capacity (step capacity p t) ts

  module _ {capacity : ℕ} (valid : IsCapacity capacity) (race : RaceState F) where
    -- What was accepted has been consumed, or waits in the ring.
    pub record Flows (p : Pipeline F) : Type 0 where
      pub consumed : List (TelemetryFrame F)
      pub waiting : List (TelemetryFrame F)
      pub ring : Represents capacity p.consumer.queue waiting
      pub all : p.accepted ≡ consumed ++ waiting
      pub claimed : p.consumer.race_state ≡ consume_all race consumed

    -- Fewer items wait than the ring has slots.
    few_wait :
        (q : SpscQueue (TelemetryFrame F)) (xs : List (TelemetryFrame F)) (fuel : ℕ)
        → Represents capacity q xs
        → capacity ≤ fuel
        → length xs < fuel
    few_wait q xs fuel r enough =
        omega (
          arith,
          r.holds.room,
          r.holds.hc_le,
          length_waiting capacity r.history xs r.waiting,
          enough,
        )

    consume_all-append :
        (r : RaceState F) (ts : List (TelemetryFrame F)) (t : TelemetryFrame F)
        → consume_all r (ts ++ t ∷ []) ≡ consume (consume_all r ts) t
    consume_all-append r [] t = refl
    consume_all-append r (u ∷ ts) t = consume_all-append (consume r u) ts t

    put-cases :
        {A : Type 0} (bound : ℕ) (xs : List A) (x : A)
        → (put bound xs x ≡ (xs ++ x ∷ [], true)) ⊎ (put bound xs x ≡ (xs, false))
    unfolding put
    put-cases bound xs x = elim (Bool-cases (ltb (length xs) bound)) [
      | inl room ↦ inl (rw (room, put) refl)
      | inr full ↦ inr (rw (full, put) refl)
    ]

    pub offer-Flows :
        (p : Pipeline F) (frame : TelemetryFrame F)
        → Flows p
        → Flows (step capacity p (offer frame))
    unfolding step
    offer-Flows p frame v =
        let (done, ring) = push_refines valid p.consumer.queue v.waiting frame v.ring in
        elim (put-cases (capacity - 1) v.waiting frame) [
          | inl kept ↦ rw (done ∙ ap (λ z. z.1) kept) (record {
            consumed = v.consumed;
            waiting = v.waiting ++ frame ∷ [];
            ring =
                subst (λ z. Represents capacity (push capacity p.consumer.queue frame).0 z.0) kept
                  ring;
            all =
                ap (λ (l : List (TelemetryFrame F)). l ++ frame ∷ []) v.all
                ∙ append_assoc v.consumed v.waiting (frame ∷ []);
            claimed = v.claimed;
          })
          | inr dropped ↦ rw (done ∙ ap (λ z. z.1) dropped) (record {
            consumed = v.consumed;
            waiting = v.waiting;
            ring =
                subst (λ z. Represents capacity (push capacity p.consumer.queue frame).0 z.0)
                  dropped ring;
            all = v.all;
            claimed = v.claimed;
          })
        ]

    pub round-Flows :
        (p : Pipeline F) (consumed waiting : List (TelemetryFrame F))
        → Represents capacity p.consumer.queue waiting
        → p.accepted ≡ consumed ++ waiting
        → p.consumer.race_state ≡ consume_all race consumed
        → Flows (step capacity p round)
    unfolding step poll get
    round-Flows p consumed [] ring all claimed =
        let (done, out, ring') = pop_refines valid p.consumer.queue [] ring in
        rw done
          (record { consumed = consumed; waiting = []; ring = ring'; all = all; claimed = claimed })
    round-Flows p consumed (t ∷ ts) ring all claimed =
        let (done, out, ring') = pop_refines valid p.consumer.queue (t ∷ ts) ring in
        rw (done, out)
          (record {
            consumed = consumed ++ t ∷ [];
            waiting = ts;
            ring = ring';
            all = all ∙ sym (append_assoc consumed (t ∷ []) ts);
            claimed = ap (λ r. consume r t) claimed ∙ sym (consume_all-append race consumed t);
          })

    run-Flows : (p : Pipeline F) (ts : List (Turn F)) → Flows p → Flows (run capacity p ts)
    unfolding run
    run-Flows p [] v = v
    run-Flows p (offer frame ∷ ts) v =
        run-Flows (step capacity p (offer frame)) ts (offer-Flows p frame v)
    run-Flows p (round ∷ ts) v =
        run-Flows (step capacity p round) ts
          (round-Flows p v.consumed v.waiting v.ring v.all v.claimed)

    pub new-Flows : (blank : TelemetryFrame F) → Flows (new_pipeline capacity blank race)
    new-Flows blank = record {
      consumed = [];
      waiting = [];
      ring = init-Represents valid blank;
      all = refl;
      claimed = refl;
    }

    consume_all-both :
        (r : RaceState F) (ts us : List (TelemetryFrame F))
        → consume_all (consume_all r ts) us ≡ consume_all r (ts ++ us)
    consume_all-both r [] us = refl
    consume_all-both r (t ∷ ts) us = consume_all-both (consume r t) ts us

    -- On a ring of a valid capacity, from a new pipeline, after any pushes and rounds of the first loop
    -- in any order: the last loop ends within as many rounds as the ring has slots, every frame that
    -- the ring accepted has then been consumed once, in the order of the pushes, and the ring is empty.
    pub accepted_consumed :
        (blank : TelemetryFrame F) (ts : List (Turn F)) (fuel : ℕ)
        → capacity ≤ fuel
        → let p = run capacity (new_pipeline capacity blank race) ts in
          (c : LapTimeConsumer F) × (drain capacity fuel p.consumer ≡ some c)
          × (c.race_state ≡ consume_all race p.accepted)
          × Represents capacity c.queue []
    accepted_consumed blank ts fuel enough =
        let p₀ = new_pipeline capacity blank race in
        let v = run-Flows p₀ ts (new-Flows blank) in
        let p = run capacity p₀ ts in
        let few : length v.waiting < fuel =
          few_wait p.consumer.queue v.waiting fuel v.ring enough in
        let (c, ends, consumed, empty) =
          drain_consumes valid fuel p.consumer v.waiting v.ring few in
        (
          c,
          ends,
          consumed
              ∙ ap (λ r. consume_all r v.waiting) v.claimed
              ∙ consume_all-both race v.consumed v.waiting
              ∙ ap (consume_all race) (sym v.all),
          empty,
        )
