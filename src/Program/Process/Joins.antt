-- ===== src/Program/Process/Joins.antt =====
-- The stops of `main`: the consumer comes to the end of its last loop, and the generator to that of its.
use formula_one_telemetry_si.Prelude.{
  ℕ, ◌≡◌, refl, sym, ◌∙◌, ap, Bool, true, false, ◌||◌, List, [], ◌∷◌, if◌then◌else◌, arith,
}
use mathlib.Core.Path.{subst}
use formula_one_telemetry_si.Floats.{Floats}
use formula_one_telemetry_si.Types.{RaceControlEvent, TelemetryFrame}
use formula_one_telemetry_si.Queue.{FifoQueue}
use formula_one_telemetry_si.Spsc.{pop}
use formula_one_telemetry_si.Spsc.Fifo.{get}
use formula_one_telemetry_si.Spsc.Refine.{Represents}
use formula_one_telemetry_si.Spsc.Refine.Pop.{pop_refines}
use formula_one_telemetry_si.LapTimes.{poll}
use formula_one_telemetry_si.Telemetry
use formula_one_telemetry_si.Telemetry.{queue_capacity}
use formula_one_telemetry_si.Telemetry.Frames.{queue_capacity-IsCapacity as valid}
use formula_one_telemetry_si.TrackLimits
use formula_one_telemetry_si.Program.Live.{with_race}
use formula_one_telemetry_si.Program.Process.{
  Stage, joining_generator, stopping_consumer, joining_consumer, reporting, Generating, Consuming,
  Process, generator_joins, consumer_joins, consumer_of, main_step, consumer_step, begin_tick,
  generator_step, step, generator_turn, consumer_turn,
}
use formula_one_telemetry_si.Program.Process.Asked.{consumer_step-Leaves, generator_step-Leaves}
use formula_one_telemetry_si.Program.Process.Ending.{
  Fine, Fine-step, Finishes, back, pass, finish_report,
}

module _ {F Q W V : Type 0} ⦃f : Floats F⦄ (engine : Telemetry.World F V)
    (world : TrackLimits.World F W) (queue : FifoQueue Q RaceControlEvent) (tid : ℕ) (events : Q)
    (limits : W) where
  abbrev pub Good : Process F Q W V → Type 0
  Good = Fine engine world queue tid events limits

  abbrev pub Succeeds : Process F Q W V → Type 0
  Succeeds = Finishes engine world queue tid events limits

  abbrev pub Leads : Stage → Type 0
  Leads st = (s : Process F Q W V) → Good s → s.stage ≡ st → Succeeds s

  -- After the last loop of the consumer.
  finish_drained :
      (s : Process F Q W V)
      → Good s
      → s.stage ≡ joining_consumer
      → consumer_joins s.consuming ≡ true
      → Succeeds s
  unfolding main_step
  finish_drained s v e over =
      pass engine world queue tid events limits joining_consumer reporting s e
        (ap (λ (b : Bool). if b then reporting else joining_consumer) over)
        (finish_report engine world queue tid events limits) v

  abbrev on_consumer : Process F Q W V → Process F Q W V
  on_consumer s = step engine world queue tid s consumer_turn

  step-consumer :
      (s : Process F Q W V) (c : Consuming) → s.consuming ≡ c → on_consumer s ≡ consumer_step c s
  unfolding step
  step-consumer s c e = ap (λ z. consumer_step z s) e

  stage-consumer : (s : Process F Q W V) → (on_consumer s).stage ≡ s.stage
  unfolding step
  stage-consumer s = (consumer_step-Leaves s.consuming s).stage

  -- A pop of the last loop.
  drained :
      (s : Process F Q W V) (b : Bool)
      → s.consuming ≡ Consuming.draining
      → (pop queue_capacity s.generator.queue).1 ≡ b
      → (on_consumer s).consuming ≡ (if b then Consuming.draining else Consuming.returned)
  unfolding consumer_step
  drained s b here e =
      ap (λ (z : Process F Q W V). z.consuming) (step-consumer s Consuming.draining here)
      ∙ ap (λ (z : Bool). if z then Consuming.draining else Consuming.returned) e

  queue-drained :
      (s : Process F Q W V)
      → s.consuming ≡ Consuming.draining
      → (on_consumer s).generator.queue ≡ (pop queue_capacity s.generator.queue).0
  unfolding consumer_step poll
  queue-drained s here =
      ap (λ (z : Process F Q W V). z.generator.queue) (step-consumer s Consuming.draining here)

  finish_draining :
      (ws : List (TelemetryFrame F)) (s : Process F Q W V)
      → Represents queue_capacity s.generator.queue ws
      → Good s
      → s.stage ≡ joining_consumer
      → s.consuming ≡ Consuming.draining
      → Succeeds s
  unfolding get
  finish_draining [] s r v e here =
      let (done, _, _) = pop_refines valid s.generator.queue [] r in
      back engine world queue tid events limits s consumer_turn (
        finish_drained (on_consumer s)
          (Fine-step engine world queue tid events limits s consumer_turn v) (stage-consumer s ∙ e)
          (ap consumer_joins (drained s false here done)))
  finish_draining (t ∷ ts) s r v e here =
      let (done, _, r') = pop_refines valid s.generator.queue (t ∷ ts) r in
      back engine world queue tid events limits s consumer_turn (
        finish_draining ts (on_consumer s)
          (subst (λ q. Represents queue_capacity q ts) (sym (queue-drained s here)) r')
          (Fine-step engine world queue tid events limits s consumer_turn v) (stage-consumer s ∙ e)
          (drained s true here done))

  begin_draining :
      (s : Process F Q W V)
      → s.consuming ≡ Consuming.polling
      → s.consumer_stop ≡ true
      → (on_consumer s).consuming ≡ Consuming.draining
  unfolding consumer_step
  begin_draining s here asked =
      ap (λ (z : Process F Q W V). z.consuming) (step-consumer s Consuming.polling here)
      ∙ ap (λ (b : Bool). (polled b).consuming) asked
    where
      polled : Bool → Process F Q W V
      polled b =
          let c = poll queue_capacity (consumer_of s) in
          if b then record s { consuming = Consuming.draining } else record s {
            generator = record s.generator { queue = c.queue };
            live = with_race c.race_state s.live;
          }

  finish_consumer :
      (c : Consuming) (s : Process F Q W V)
      → s.consuming ≡ c
      → Good s
      → s.stage ≡ joining_consumer
      → Succeeds s
  finish_consumer Consuming.unstarted s here v e = finish_drained s v e (rw here refl)
  finish_consumer Consuming.returned s here v e = finish_drained s v e (rw here refl)
  finish_consumer Consuming.draining s here v e =
      finish_draining v.flowing.flows.waiting s v.flowing.flows.ring v e here
  finish_consumer Consuming.polling s here v e =
      let s' = on_consumer s in
      let v' = Fine-step engine world queue tid events limits s consumer_turn v in
      let begun = begin_draining s here (v.asked.consumer (rw e (omega arith))) in
      back engine world queue tid events limits s consumer_turn (
        finish_draining v'.flowing.flows.waiting s' v'.flowing.flows.ring v' (stage-consumer s ∙ e)
          begun)

  pub from_joining_consumer : Leads joining_consumer
  from_joining_consumer s v e = finish_consumer s.consuming s refl v e

  pub from_stopping_consumer : Leads stopping_consumer
  unfolding main_step
  from_stopping_consumer s v e =
      pass engine world queue tid events limits stopping_consumer joining_consumer s e refl
        from_joining_consumer v

  -- After the loop of the generator.
  pub finish_generator :
      (s : Process F Q W V)
      → Good s
      → s.stage ≡ joining_generator
      → generator_joins s.generating ≡ true
      → Succeeds s
  unfolding main_step
  finish_generator s v e over =
      pass engine world queue tid events limits joining_generator stopping_consumer s e
        (ap (λ (b : Bool). if b then stopping_consumer else joining_generator) over)
        from_stopping_consumer v

  abbrev pub on_generator : ℕ → Process F Q W V → Process F Q W V
  on_generator fuel s = step engine world queue tid s (generator_turn fuel (λ k. k))

  pub step-generator :
      (s : Process F Q W V) (fuel : ℕ) (g : Generating F)
      → s.generating ≡ g
      → on_generator fuel s ≡ generator_step engine world queue tid fuel (λ k. k) g s
  unfolding step
  step-generator s fuel g e = ap (λ z. generator_step engine world queue tid fuel (λ k. k) z s) e

  -- A turn of the generator, and what follows.
  pub turn_generator :
      (s : Process F Q W V) (fuel : ℕ) (g : Generating F)
      → Good s
      → s.stage ≡ joining_generator
      → (on_generator fuel s).generating ≡ g
      → ((s' : Process F Q W V)
          → Good s'
          → s'.stage ≡ joining_generator
          → s'.generating ≡ g
          → Succeeds s')
      → Succeeds s
  unfolding step
  turn_generator s fuel g v e next rest =
      let t = generator_turn fuel (λ k. k) in
      let l = generator_step-Leaves engine world queue tid fuel (λ k. k) s.generating s in
      back engine world queue tid events limits s t (
        rest (on_generator fuel s) (Fine-step engine world queue tid events limits s t v)
          (l.stage ∙ e) next)

  pub finish_testing :
      (s : Process F Q W V)
      → Good s
      → s.stage ≡ joining_generator
      → s.generating ≡ Generating.testing
      → Succeeds s
  unfolding generator_step begin_tick
  finish_testing s v e here =
      let asked = v.asked.generator (rw e (omega arith)) in
      turn_generator s 0 Generating.returned v e
        (ap (λ (z : Process F Q W V). z.generating) (step-generator s 0 Generating.testing here)
          ∙ ap
              (λ (b : Bool).
                if b || s.generator.race_finished
                then Generating.returned
                else Generating.moving [] s.generator.states)
              asked)
        (λ s' v' e' here'. finish_generator s' v' e' (rw here' refl))
