-- ===== src/Program/Process/Asked.antt =====
-- A stage that waits for a thread comes after the stop that was requested of the thread, and no other
-- thread moves the stage or takes a request back.
use formula_one_telemetry_si.Prelude.{
  ℕ, suc, ◌≤◌, ◌≡◌, refl, Bool, true, false, ◌&&◌, ◌||◌, Option, none, some, [], ◌∷◌, ltb, length,
  ◌==◌, if-both, arith,
}
use formula_one_telemetry_si.Floats.{Floats}
use formula_one_telemetry_si.Types.{RaceControlEvent, TrackProfile}
use formula_one_telemetry_si.Queue.{FifoQueue}
use formula_one_telemetry_si.Pool
use formula_one_telemetry_si.Pool.{Worker, waiting, running, exited}
use formula_one_telemetry_si.Pool.Exits.{wake-Goes, complete-Goes}
use formula_one_telemetry_si.Telemetry
use formula_one_telemetry_si.TrackLimits
use formula_one_telemetry_si.Program.{Program}
use formula_one_telemetry_si.Program.Process.{
  is_pool, Stage, starting_race, starting_generator, starting_consumer, watching, ending_race,
  stopping_generator, joining_generator, stopping_consumer, joining_consumer, reporting, leaving,
  joining_worker, Generating, Consuming, Process, worker_count, generator_joins, consumer_joins,
  has_exited, jobs_of, jobs_after, main_step, consumer_step, move_one, end_tick, begin_tick,
  finish_callback, generator_step, worker_step, step, new_process, Turn, main_turn, generator_turn,
  consumer_turn, worker_turn,
}
use formula_one_telemetry_si.Program.Process.Control.{rank}
use formula_one_telemetry_si.Program.Process.Turns.{submit_jobs-Goes}

abbrev joins_pool : Stage → Bool
joins_pool (joining_worker i os) = true
joins_pool _ = false

pub record Asked (stage : Stage) (generator_stop consumer_stop pool_stop : Bool) : Type 0 where
  pub generator : 6 ≤ rank stage → generator_stop ≡ true
  pub consumer : 8 ≤ rank stage → consumer_stop ≡ true
  pub pool : joins_pool stage ≡ true → pool_stop ≡ true

abbrev pub IsAsked : {F Q W V : Type 0} → Process F Q W V → Type 0
IsAsked s = Asked s.stage s.generator_stop s.consumer_stop s.pool.stop

module _ {F Q W V : Type 0} (s : Process F Q W V) where
  abbrev KeptAsked : Stage → Type 0
  KeptAsked st = Asked st s.generator_stop s.consumer_stop s.pool.stop

  -- To a stage that waits for no thread but those that the stage before waited for.
  move_on :
      (from to : Stage)
      → KeptAsked from
      → (6 ≤ rank to → 6 ≤ rank from)
      → (8 ≤ rank to → 8 ≤ rank from)
      → (joins_pool to ≡ true → joins_pool from ≡ true)
      → KeptAsked to
  move_on from to v g c p = record {
    generator = λ h. v.generator (g h);
    consumer = λ h. v.consumer (c h);
    pool = λ h. v.pool (p h);
  }

  early : (from to : Stage) → KeptAsked from → rank to ≤ 5 → joins_pool to ≡ false → KeptAsked to
  early from to v le e =
      move_on from to v (λ h. absurd (omega (arith, h))) (λ h. absurd (omega (arith, h))) (λ h. cc)

  main_step-Asked :
      (st : Stage) (t : Bool) → s.stage ≡ st → KeptAsked st → IsAsked (main_step st t s)
  unfolding main_step Pool.step
  main_step-Asked starting_race t e v = early starting_race _ v (omega arith) refl
  main_step-Asked starting_generator t e v = early starting_generator _ v (omega arith) refl
  main_step-Asked starting_consumer t e v = early starting_consumer _ v (omega arith) refl
  main_step-Asked watching t e v =
      if-both KeptAsked (s.generator.race_finished || t)
        (λ _. early watching ending_race v (omega arith) refl) (λ _. v)
  main_step-Asked ending_race t e v = early ending_race _ v (omega arith) refl
  main_step-Asked stopping_generator t e v = record {
    generator = λ _. refl;
    consumer = λ h. absurd (omega (arith, h));
    pool = λ h. cc;
  }
  main_step-Asked joining_generator t e v =
      if-both KeptAsked (generator_joins s.generating)
        (λ _.
          move_on joining_generator stopping_consumer v (λ _. omega arith)
            (λ h. absurd (omega (arith, h))) (λ h. h))
        (λ _. v)
  main_step-Asked stopping_consumer t e v = record {
    generator = λ _. v.generator (omega arith);
    consumer = λ _. refl;
    pool = λ h. cc;
  }
  main_step-Asked joining_consumer t e v =
      if-both KeptAsked (consumer_joins s.consuming)
        (λ _. move_on joining_consumer reporting v (λ _. omega arith) (λ _. omega arith) (λ h. h))
        (λ _. v)
  main_step-Asked reporting t e v =
      move_on reporting (leaving _) v (λ _. omega arith) (λ _. omega arith) (λ h. cc)
  main_step-Asked (leaving []) t e v = rw e v
  main_step-Asked (leaving (o ∷ os)) t e v =
      if-both IsAsked (is_pool o)
        (λ _. record {
          generator = λ _. v.generator (omega arith);
          consumer = λ _. v.consumer (omega arith);
          pool = λ _. refl;
        })
        (λ _.
          move_on (leaving (o ∷ os)) (leaving os) v (λ _. omega arith) (λ _. omega arith) (λ h. cc))
  main_step-Asked (joining_worker i os) t e v =
      let from = joining_worker i os in
      if-both KeptAsked (i == worker_count)
        (λ _. move_on from (leaving os) v (λ _. omega arith) (λ _. omega arith) (λ h. cc))
        (λ _.
          if-both KeptAsked (has_exited (s.pool.workers i))
            (λ _.
              move_on from (joining_worker (suc i) os) v (λ _. omega arith) (λ _. omega arith)
                (λ h. h))
            (λ _. v))

-- What the turns of the other threads leave as it is.
pub record Leaves {F Q W V : Type 0} (s t : Process F Q W V) : Type 0 where
  pub stage : t.stage ≡ s.stage
  pub generator_stop : t.generator_stop ≡ s.generator_stop
  pub consumer_stop : t.consumer_stop ≡ s.consumer_stop
  pub pool_stop : t.pool.stop ≡ s.pool.stop

module _ {F Q W V : Type 0} where
  Leaves-same : (s : Process F Q W V) → Leaves s s
  Leaves-same s = record {
    stage = refl;
    generator_stop = refl;
    consumer_stop = refl;
    pool_stop = refl;
  }

  Leaves-pool :
      (s t : Process F Q W V)
      → t.stage ≡ s.stage
      → t.generator_stop ≡ s.generator_stop
      → t.consumer_stop ≡ s.consumer_stop
      → t.pool.stop ≡ s.pool.stop
      → Leaves s t
  Leaves-pool s t a b c d = record {
    stage = a;
    generator_stop = b;
    consumer_stop = c;
    pool_stop = d;
  }

  Asked-Leaves : (s t : Process F Q W V) → Leaves s t → IsAsked s → IsAsked t
  Asked-Leaves s t l v = rw (l.stage, l.generator_stop, l.consumer_stop, l.pool_stop) v

module _ {F Q W V : Type 0} ⦃f : Floats F⦄ where
  pub consumer_step-Leaves : (c : Consuming) (s : Process F Q W V) → Leaves s (consumer_step c s)
  unfolding consumer_step
  consumer_step-Leaves Consuming.unstarted s = Leaves-same s
  consumer_step-Leaves Consuming.returned s = Leaves-same s
  consumer_step-Leaves Consuming.polling s =
      if-both (Leaves s) s.consumer_stop (λ _. Leaves-pool s _ refl refl refl refl)
        (λ _. Leaves-pool s _ refl refl refl refl)
  consumer_step-Leaves Consuming.draining s = Leaves-pool s _ refl refl refl refl

module _ {F Q W V : Type 0} ⦃f : Floats F⦄ (engine : Telemetry.World F V)
    (world : TrackLimits.World F W) (queue : FifoQueue Q RaceControlEvent) (tid : ℕ) where
  finish_callback-Leaves :
      (o : Option (Program F Q)) (s : Process F Q W V)
      → Leaves s (finish_callback engine world queue tid o s)
  unfolding finish_callback
  finish_callback-Leaves none s = Leaves-same s
  finish_callback-Leaves (some p) s =
      let new = jobs_after (jobs_of s) p.flights.jobs in
      let goes = submit_jobs-Goes (length (jobs_of s)) new s.pool in
      if-both (Leaves s) (s.pool.stop && ltb 0 (length new)) (λ _. Leaves-same s)
        (λ _. Leaves-pool s _ refl refl refl goes.same_stop)

  pub generator_step-Leaves :
      (fuel : ℕ) (clock : ℕ → ℕ) (g : Generating F) (s : Process F Q W V)
      → Leaves s (generator_step engine world queue tid fuel clock g s)
  unfolding generator_step begin_tick end_tick move_one
  generator_step-Leaves fuel clock Generating.testing s = Leaves-pool s _ refl refl refl refl
  generator_step-Leaves fuel clock (Generating.moving moved (state ∷ rest)) s =
      Leaves-pool s _ refl refl refl refl
  generator_step-Leaves fuel clock (Generating.moving moved []) s =
      Leaves-pool s _ refl refl refl refl
  generator_step-Leaves fuel clock Generating.publishing s = finish_callback-Leaves _ s
  generator_step-Leaves fuel clock Generating.unstarted s = Leaves-same s
  generator_step-Leaves fuel clock Generating.returned s = Leaves-same s

  pub worker_step-Leaves :
      (i : ℕ) (coin : F) (now : ℕ) (w : Worker ℕ) (s : Process F Q W V)
      → Leaves s (worker_step engine world queue tid i coin now w s)
  unfolding worker_step
  worker_step-Leaves i coin now waiting s =
      let goes = wake-Goes s.pool i in Leaves-pool s _ refl refl refl goes.same_stop
  worker_step-Leaves i coin now (running k) s =
      let goes = complete-Goes s.pool i in Leaves-pool s _ refl refl refl goes.same_stop
  worker_step-Leaves i coin now exited s = Leaves-same s

  pub step-Asked :
      (s : Process F Q W V) (t : Turn F) → IsAsked s → IsAsked (step engine world queue tid s t)
  unfolding step
  step-Asked s (main_turn t) v = main_step-Asked s s.stage t refl v
  step-Asked s (generator_turn fuel clock) v =
      Asked-Leaves s _ (generator_step-Leaves fuel clock s.generating s) v
  step-Asked s consumer_turn v = Asked-Leaves s _ (consumer_step-Leaves s.consuming s) v
  step-Asked s (worker_turn i coin now) v =
      if-both IsAsked (ltb i worker_count)
        (λ _. Asked-Leaves s _ (worker_step-Leaves i coin now (s.pool.workers i) s) v) (λ _. v)

  pub new_process-Asked :
      (track : TrackProfile F) (events : Q) (limits : W) (w : V)
      → IsAsked (new_process engine track events limits w)
  unfolding new_process
  new_process-Asked track events limits w = record {
    generator = λ h. absurd (omega (arith, h));
    consumer = λ h. absurd (omega (arith, h));
    pool = λ h. cc;
  }
