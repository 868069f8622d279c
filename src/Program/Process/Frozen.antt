-- ===== src/Program/Process/Frozen.antt =====
-- Nothing that the generator writes changes once its thread has been joined.
use formula_one_telemetry_si.Prelude.{
  ℕ, ◌≤◌, ◌≡◌, refl, ◌∙◌, Bool, true, Option, none, some, List, [], ◌∷◌, ltb, length, ◌==◌, if-both,
  arith,
}
use formula_one_telemetry_si.Floats.{Floats}
use formula_one_telemetry_si.Types.{RaceControlEvent, TrackProfile}
use formula_one_telemetry_si.Queue.{FifoQueue}
use formula_one_telemetry_si.Pool
use formula_one_telemetry_si.Pool.{Worker, waiting, running, exited}
use formula_one_telemetry_si.Pool.Shutdown.{submitted-wake_worker, submitted-complete_task}
use formula_one_telemetry_si.Telemetry
use formula_one_telemetry_si.Telemetry.{queue_capacity}
use formula_one_telemetry_si.TrackLimits
use formula_one_telemetry_si.Program.{Job, check_limits, update_weather, Entry}
use formula_one_telemetry_si.Program.Live.{Live, run_job, run_entry, entry_at}
use formula_one_telemetry_si.Program.Process.{
  is_pool, Stage, starting_race, stopping_consumer, joining_consumer, reporting, leaving,
  joining_worker, Generating, Consuming, Process, worker_count, generator_joins, consumer_joins,
  has_exited, jobs_of, race_of, consumer_of, main_step, consumer_step, generator_step, worker_step,
  step, run, new_process, Turn, main_turn, generator_turn, consumer_turn, worker_turn, after,
}
use formula_one_telemetry_si.Program.Process.Control.{IsControlled, rank}
use formula_one_telemetry_si.Program.Process.Turns.{step-Control, run-Control, new_process-Control}
use formula_one_telemetry_si.Program.Process.Asked.{consumer_step-Leaves, worker_step-Leaves}
use formula_one_telemetry_si.Program.Process.LapKept.{lap-poll, length-keep_promise}

-- What the generator's thread alone writes: the standings, the states and warnings of the penalties, the
-- lap, the jobs submitted, and the frames that the ring accepted.
pub record Frozen {F Q W V : Type 0} (s t : Process F Q W V) : Type 0 where
  pub board : t.live.program.leaderboard ≡ s.live.program.leaderboard
  pub slots : t.live.program.penalty.slots ≡ s.live.program.penalty.slots
  pub lap : (race_of t).current_lap ≡ (race_of s).current_lap
  pub job_count : length (jobs_of t) ≡ length (jobs_of s)
  pub submitted : t.pool.submitted ≡ s.pool.submitted
  pub accepted : t.accepted ≡ s.accepted

module _ {F Q W V : Type 0} where
  unchanged :
      {s t : Process F Q W V}
      → t.live.program.leaderboard ≡ s.live.program.leaderboard
      → t.live.program.penalty.slots ≡ s.live.program.penalty.slots
      → (race_of t).current_lap ≡ (race_of s).current_lap
      → length (jobs_of t) ≡ length (jobs_of s)
      → t.pool.submitted ≡ s.pool.submitted
      → t.accepted ≡ s.accepted
      → Frozen s t
  unchanged a b c d e g = record {
    board = a;
    slots = b;
    lap = c;
    job_count = d;
    submitted = e;
    accepted = g;
  }

  Frozen-same : (s : Process F Q W V) → Frozen s s
  Frozen-same s = unchanged refl refl refl refl refl refl

  Frozen-trans : {s t u : Process F Q W V} → Frozen s t → Frozen t u → Frozen s u
  Frozen-trans a b =
      unchanged (b.board ∙ a.board) (b.slots ∙ a.slots) (b.lap ∙ a.lap) (b.job_count ∙ a.job_count)
        (b.submitted ∙ a.submitted) (b.accepted ∙ a.accepted)

  -- The main thread writes none of it.
  main_step-Frozen : (st : Stage) (t : Bool) (s : Process F Q W V) → Frozen s (main_step st t s)
  unfolding main_step Pool.step
  main_step-Frozen (leaving []) t s = Frozen-same s
  main_step-Frozen (leaving (o ∷ os)) t s =
      if-both (Frozen s) (is_pool o) (λ _. unchanged refl refl refl refl refl refl)
        (λ _. unchanged refl refl refl refl refl refl)
  main_step-Frozen starting_race t s = unchanged refl refl refl refl refl refl
  main_step-Frozen _ t s = unchanged refl refl refl refl refl refl

  -- The main thread does not go back to the race.
  main_step-late :
      (st : Stage) (t : Bool) (s : Process F Q W V)
      → s.stage ≡ st
      → 7 ≤ rank st
      → 7 ≤ rank (main_step st t s).stage
  unfolding main_step
  main_step-late stopping_consumer t s e h = omega arith
  main_step-late joining_consumer t s e h =
      if-both (λ z. 7 ≤ rank z) (consumer_joins s.consuming) (λ _. omega arith) (λ _. omega arith)
  main_step-late reporting t s e h = omega arith
  main_step-late (leaving []) t s e h = rw e (omega arith)
  main_step-late (leaving (o ∷ os)) t s e h =
      if-both (λ (z : Process F Q W V). 7 ≤ rank z.stage) (is_pool o) (λ _. omega arith)
        (λ _. omega arith)
  main_step-late (joining_worker i os) t s e h =
      if-both (λ z. 7 ≤ rank z) (i == worker_count) (λ _. omega arith)
        (λ _.
          if-both (λ z. 7 ≤ rank z) (has_exited (s.pool.workers i)) (λ _. omega arith)
            (λ _. omega arith))
  main_step-late starting_race t s e h = absurd (omega (arith, h))
  main_step-late _ t s e h = absurd (omega (arith, h))

module _ {F Q W V : Type 0} ⦃f : Floats F⦄ where
  consumer_step-Frozen : (c : Consuming) (s : Process F Q W V) → Frozen s (consumer_step c s)
  unfolding consumer_step
  consumer_step-Frozen Consuming.unstarted s = Frozen-same s
  consumer_step-Frozen Consuming.returned s = Frozen-same s
  consumer_step-Frozen Consuming.polling s =
      if-both (Frozen s) s.consumer_stop (λ _. unchanged refl refl refl refl refl refl)
        (λ _. unchanged refl refl (lap-poll queue_capacity (consumer_of s)) refl refl refl)
  consumer_step-Frozen Consuming.draining s =
      unchanged refl refl (lap-poll queue_capacity (consumer_of s)) refl refl refl

module _ {F Q W V : Type 0} ⦃f : Floats F⦄ (engine : Telemetry.World F V)
    (world : TrackLimits.World F W) (queue : FifoQueue Q RaceControlEvent) (tid : ℕ) where
  run_job-Frozen :
      (s : Process F Q W V) (coin : F) (now k : ℕ) (j : Job F)
      → Frozen s (record s { live = run_job world queue coin now j s.live })
  unfolding run_job
  run_job-Frozen s coin now k (check_limits states lap) = unchanged refl refl refl refl refl refl
  run_job-Frozen s coin now k (update_weather lap) = unchanged refl refl refl refl refl refl

  run_entry-Frozen :
      (s : Process F Q W V) (coin : F) (now k : ℕ) (o : Option (Entry F))
      → Frozen s (record s { live = run_entry world queue coin now k o s.live })
  run_entry-Frozen s coin now k none = Frozen-same s
  run_entry-Frozen s coin now k (some e) =
      if-both (λ (l : Live F Q W). Frozen s (record s { live = l })) e.ready (λ _. Frozen-same s)
        (λ _.
          let v = run_job-Frozen s coin now k e.job in
          unchanged v.board v.slots v.lap (length-keep_promise _ k ∙ v.job_count) refl refl)

  worker_step-Frozen :
      (i : ℕ) (coin : F) (now : ℕ) (w : Worker ℕ) (s : Process F Q W V)
      → Frozen s (worker_step engine world queue tid i coin now w s)
  unfolding worker_step Pool.step
  worker_step-Frozen i coin now waiting s =
      unchanged refl refl refl refl (submitted-wake_worker s.pool i (s.pool.workers i)) refl
  worker_step-Frozen i coin now (running k) s =
      let v = run_entry-Frozen s coin now k (entry_at (jobs_of s) k) in
      unchanged v.board v.slots v.lap v.job_count
        (submitted-complete_task s.pool i (s.pool.workers i)) refl
  worker_step-Frozen i coin now exited s = Frozen-same s

  generator_step-over :
      (fuel : ℕ) (clock : ℕ → ℕ) (g : Generating F) (s : Process F Q W V)
      → generator_joins g ≡ true
      → generator_step engine world queue tid fuel clock g s ≡ s
  unfolding generator_step
  generator_step-over fuel clock Generating.unstarted s e = refl
  generator_step-over fuel clock Generating.returned s e = refl
  generator_step-over fuel clock Generating.testing s e = cc
  generator_step-over fuel clock Generating.publishing s e = cc
  generator_step-over fuel clock (Generating.moving moved rest) s e = cc

  abbrev IsLate : Process F Q W V → Type 0
  IsLate s = IsControlled s × (7 ≤ rank s.stage)

  step-Frozen :
      (s : Process F Q W V) (t : Turn F)
      → IsLate s
      → Frozen s (step engine world queue tid s t)
        × (7 ≤ rank (step engine world queue tid s t).stage)
  unfolding step
  step-Frozen s (main_turn t) (c, late) =
      (main_step-Frozen s.stage t s, main_step-late s.stage t s refl late)
  step-Frozen s (generator_turn fuel clock) (c, late) =
      let same = generator_step-over fuel clock s.generating s (c.generator_over late) in
      rw same (Frozen-same s, late)
  step-Frozen s consumer_turn (c, late) =
      let l = consumer_step-Leaves s.consuming s in
      (consumer_step-Frozen s.consuming s, rw l.stage late)
  step-Frozen s (worker_turn i coin now) (c, late) =
      if-both (λ (z : Process F Q W V). Frozen s z × (7 ≤ rank z.stage)) (ltb i worker_count)
        (λ _.
          let w = s.pool.workers i in
          let l = worker_step-Leaves engine world queue tid i coin now w s in
          (worker_step-Frozen i coin now w s, rw l.stage late))
        (λ _. (Frozen-same s, late))

  run-Frozen :
      (s : Process F Q W V) (ts : List (Turn F))
      → IsLate s
      → Frozen s (run engine world queue tid s ts)
  unfolding run
  run-Frozen s [] v = Frozen-same s
  run-Frozen s (t ∷ ts) (c, late) =
      let (now, late') = step-Frozen s t (c, late) in
      Frozen-trans now (
        run-Frozen (step engine world queue tid s t) ts
          (step-Control engine world queue tid s t c, late'))

  -- After any turns of the threads of `main` that have brought the main thread past the join of the
  -- generator, whatever turns follow: the standings, the states and warnings of the penalties, the lap,
  -- the number of jobs, the tasks that the pool has accepted and the frames that the ring has accepted
  -- stay as they are.
  pub joined-Frozen :
      (track : TrackProfile F) (events : Q) (limits : W) (w : V) (ts us : List (Turn F))
      → 7 ≤ rank (after engine world queue tid track events limits w ts).stage
      → let s = after engine world queue tid track events limits w ts in
        Frozen s (run engine world queue tid s us)
  joined-Frozen track events limits w ts us late =
      let s₀ = new_process engine track events limits w in
      let c =
        run-Control engine world queue tid s₀ ts
          (new_process-Control engine track events limits w) in
      run-Frozen (run engine world queue tid s₀ ts) us (c, late)
