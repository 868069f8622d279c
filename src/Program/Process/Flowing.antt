-- ===== src/Program/Process/Flowing.antt =====
-- The ring and the fastest lap of the process, against the ring and the consumer alone.
use formula_one_telemetry_si.Prelude.{
  ℕ, ◌≡◌, ◌≢◌, refl, sym, ◌∙◌, ap, false, Option, none, some, List, [], ◌∷◌, ◌++◌, append-nil,
  if◌then◌else◌, Bool-cases, inl, inr, arith,
}
use formula_one_telemetry_si.Prelude.Int.{ℤ, pos, negsuc}
use formula_one_telemetry_si.Prelude.Text.{until_nul}
use formula_one_telemetry_si.Floats.{Floats}
use formula_one_telemetry_si.Types.{TelemetryFrame, zero_f, blank_frame}
use formula_one_telemetry_si.Season.{driver_index_of}
use formula_one_telemetry_si.Spsc.{IsCapacity, SpscQueue, push, pop, init}
use formula_one_telemetry_si.Spsc.Refine.{Represents}
use formula_one_telemetry_si.Spsc.Refine.Pop.{pop_refines}
use formula_one_telemetry_si.Spsc.Fifo.{get}
use formula_one_telemetry_si.RaceState
use formula_one_telemetry_si.RaceState.{RaceState, try_claim_fastest_lap}
use formula_one_telemetry_si.LapTimes.{LapTimeConsumer, consume, after_pop, poll}
use formula_one_telemetry_si.LapTimes.Claims.{consume_all}
use formula_one_telemetry_si.LapTimes.Pipeline
use formula_one_telemetry_si.LapTimes.Pipeline.{
  Pipeline, Flows, new_pipeline, new-Flows, offer-Flows, round-Flows,
}
use formula_one_telemetry_si.Program.Process.{Consuming}

module _ {F : Type 0} ⦃f : Floats F⦄ where
  -- The same fastest lap.
  abbrev pub SameFastest : RaceState F → RaceState F → Type 0
  SameFastest r r' =
      (r.fastest_lap_holder ≡ r'.fastest_lap_holder) × (r.fastest_lap_ms ≡ r'.fastest_lap_ms)

  claim-SameFastest :
      (r r' : RaceState F) (i : ℤ) (ms : F)
      → SameFastest r r'
      → SameFastest (try_claim_fastest_lap r i ms).0 (try_claim_fastest_lap r' i ms).0
  unfolding try_claim_fastest_lap
  claim-SameFastest r r' i ms (holder, time) = ground arith

  consume-SameFastest :
      (r r' : RaceState F) (t : TelemetryFrame F)
      → SameFastest r r'
      → SameFastest (consume r t) (consume r' t)
  unfolding consume
  consume-SameFastest r r' t same = elim (Bool-cases (f.lt zero_f t.lap_time_ms)) [
    | inl lap ↦ rw lap (go (driver_index_of F (until_nul t.driver_id)))
    | inr no_lap ↦ rw no_lap same
  ]
    where
      go :
          (z : ℤ)
          → SameFastest
              (elim z [
                | pos idx ↦ (try_claim_fastest_lap r (pos idx) t.lap_time_ms).0
                | negsuc _ ↦ r
              ])
              (elim z [
                | pos idx ↦ (try_claim_fastest_lap r' (pos idx) t.lap_time_ms).0
                | negsuc _ ↦ r'
              ])
      go (pos idx) = claim-SameFastest r r' (pos idx) t.lap_time_ms same
      go (negsuc n) = same

  after_pop-SameFastest :
      (r r' : RaceState F) (o : Option (TelemetryFrame F))
      → SameFastest r r'
      → SameFastest (after_pop r o) (after_pop r' o)
  after_pop-SameFastest r r' none same = same
  after_pop-SameFastest r r' (some t) same = consume-SameFastest r r' t same

  poll-SameFastest :
      (capacity : ℕ) (q : SpscQueue (TelemetryFrame F)) (r r' : RaceState F)
      → SameFastest r r'
      → SameFastest
          (poll capacity (record { queue = q; race_state = r })).race_state
          (poll capacity (record { queue = q; race_state = r' })).race_state
  unfolding poll
  poll-SameFastest capacity q r r' same = elim (Bool-cases (pop capacity q).1) [
    | inl done ↦ rw done (after_pop-SameFastest r r' (pop capacity q).2 same)
    | inr empty ↦ rw empty same
  ]

  -- The pipeline of a ring and a race state.
  abbrev pipe_of : SpscQueue (TelemetryFrame F) → List (TelemetryFrame F) → RaceState F → Pipeline F
  pipe_of q accepted race = record {
    consumer = record { queue = q; race_state = race };
    accepted = accepted;
  }

  module _ {capacity : ℕ} (valid : IsCapacity capacity) where
    -- The consumer with a race state that no other thread writes; once it has ended it has consumed all
    -- that the ring accepted.
    pub record Flowing (q : SpscQueue (TelemetryFrame F)) (accepted : List (TelemetryFrame F))
        (race : RaceState F) (c : Consuming) : Type 0 where
      pub alone : RaceState F
      pub flows : Flows valid RaceState.init (pipe_of q accepted alone)
      pub same : SameFastest race alone
      pub settled : c ≡ Consuming.returned → alone ≡ consume_all RaceState.init accepted

    module _ {q : SpscQueue (TelemetryFrame F)} {accepted : List (TelemetryFrame F)}
        {race : RaceState F} {c : Consuming} (v : Flowing q accepted race c) where
      pub Flowing-race : (race' : RaceState F) → SameFastest race' race → Flowing q accepted race' c
      Flowing-race race' (holder, time) = record {
        alone = v.alone;
        flows = v.flows;
        same = (holder ∙ v.same.0, time ∙ v.same.1);
        settled = v.settled;
      }

      pub Flowing-started : (c' : Consuming) → c' ≢ Consuming.returned → Flowing q accepted race c'
      Flowing-started c' going = record {
        alone = v.alone;
        flows = v.flows;
        same = v.same;
        settled = λ over. absurd (going over);
      }

      -- A push while the consumer has not ended.
      pub Flowing-push :
          (frame : TelemetryFrame F)
          → c ≢ Consuming.returned
          → let (q', done) = push capacity q frame in
            Flowing q' (if done then accepted ++ frame ∷ [] else accepted) race c
      unfolding Pipeline.step
      Flowing-push frame going = record {
        alone = v.alone;
        flows = offer-Flows valid RaceState.init (pipe_of q accepted v.alone) frame v.flows;
        same = v.same;
        settled = λ over. absurd (going over);
      }

      poll-Flows :
          let p = poll capacity (record { queue = q; race_state = v.alone }) in
          Flows valid RaceState.init (pipe_of p.queue accepted p.race_state)
      unfolding Pipeline.step
      poll-Flows =
          let w = v.flows in
          round-Flows valid RaceState.init (pipe_of q accepted v.alone) w.consumed w.waiting w.ring
            w.all w.claimed

      abbrev polled : LapTimeConsumer F
      polled = poll capacity (record { queue = q; race_state = race })

      pub Flowing-poll : c ≢ Consuming.returned → Flowing polled.queue accepted polled.race_state c
      unfolding poll
      Flowing-poll going = record {
        alone = (poll capacity (record { queue = q; race_state = v.alone })).race_state;
        flows = poll-Flows;
        same = poll-SameFastest capacity q race v.alone v.same;
        settled = λ over. absurd (going over);
      }

      -- A ring whose pop gives up is empty.
      nothing_waits :
          (waiting : List (TelemetryFrame F))
          → Represents capacity q waiting
          → (pop capacity q).1 ≡ false
          → waiting ≡ []
      unfolding get
      nothing_waits [] r e = refl
      nothing_waits (t ∷ ts) r e = let (done, _, _) = pop_refines valid q (t ∷ ts) r in cc

      -- The pop that ends the last loop.
      pub Flowing-ends :
          (pop capacity q).1 ≡ false
          → Flowing polled.queue accepted polled.race_state Consuming.returned
      unfolding poll
      Flowing-ends e =
          let w = v.flows in
          let none_left = nothing_waits w.waiting w.ring e in
          let last = (poll capacity (record { queue = q; race_state = v.alone })).race_state in
          let unread : last ≡ v.alone = rw (poll, e) refl in
          record {
            alone = last;
            flows = poll-Flows;
            same = poll-SameFastest capacity q race v.alone v.same;
            settled = λ _.
                unread
                ∙ w.claimed
                ∙ ap (consume_all RaceState.init) (
                    sym (append-nil w.consumed)
                    ∙ ap (λ l. w.consumed ++ l) (sym none_left)
                    ∙ sym w.all);
          }

    pub new-Flowing :
        (race : RaceState F)
        → SameFastest race RaceState.init
        → Flowing (init capacity blank_frame) [] race Consuming.unstarted
    new-Flowing race same = record {
      alone = RaceState.init;
      flows = new-Flows valid RaceState.init blank_frame;
      same = same;
      settled = λ e. cc;
    }
