-- ===== src/Program/Process/Ending.antt =====
-- The end of `main`, from its report on: the objects are destroyed, and the workers of the pool joined.
use formula_one_telemetry_si.Prelude.{
  ℕ, zero, suc, ◌+◌, ◌≤◌, ◌<◌, ◌≡◌, refl, ◌∙◌, ap, Bool, true, false, List, [], ◌∷◌, ◌==◌, drop,
  if◌then◌else◌, inl, inr, arith,
}
use formula_one_telemetry_si.Floats.{Floats}
use formula_one_telemetry_si.Types.{RaceControlEvent}
use formula_one_telemetry_si.Queue.{FifoQueue}
use formula_one_telemetry_si.Pool
use formula_one_telemetry_si.Pool.{ThreadPool, Worker, waiting, running, exited, take_task}
use formula_one_telemetry_si.Telemetry
use formula_one_telemetry_si.Telemetry.{queue_capacity}
use formula_one_telemetry_si.TrackLimits
use formula_one_telemetry_si.Program.Live.{new_live}
use formula_one_telemetry_si.Program.Process.{
  Object, locals, is_pool, Stage, reporting, leaving, joining_worker, Process, worker_count,
  has_exited, main_step, step, run, Turn, main_turn, worker_turn,
}
use formula_one_telemetry_si.Program.Process.Control.{has_pool, has_exited-cases}
use formula_one_telemetry_si.Program.Process.Report.{IsFlowing, step-Flowing}
use formula_one_telemetry_si.Program.Process.Callbacks.{IsSound, step-IsSound}
use formula_one_telemetry_si.Program.Process.Lifetimes.{at_most_3}
use formula_one_telemetry_si.Program.Process.Asked.{IsAsked, step-Asked, worker_step-Leaves}
use formula_one_telemetry_si.Program.Process.Workers.{on_worker, step-worker, work, works_less}

module _ {F Q W V : Type 0} ⦃f : Floats F⦄ (engine : Telemetry.World F V)
    (world : TrackLimits.World F W) (queue : FifoQueue Q RaceControlEvent) (tid : ℕ) (events : Q)
    (limits : W) where
  -- Some turns lead to the end of `main`.
  abbrev pub Finishes : Process F Q W V → Type 0
  Finishes s = (us : List (Turn F)) × ((run engine world queue tid s us).stage ≡ leaving [])

  pub back :
      (s : Process F Q W V) (t : Turn F) → Finishes (step engine world queue tid s t) → Finishes s
  unfolding run
  back s t (us, e) = (t ∷ us, e)

  pub record Fine (s : Process F Q W V) : Type 0 where
    pub sound : IsSound engine world queue tid (new_live events limits) s
    pub flowing : IsFlowing s
    pub asked : IsAsked s

  pub Fine-step :
      (s : Process F Q W V) (t : Turn F) → Fine s → Fine (step engine world queue tid s t)
  Fine-step s t v = record {
    sound = step-IsSound engine world queue tid (new_live events limits) s t v.sound;
    flowing = step-Flowing engine world queue tid s t v.sound.control v.flowing;
    asked = step-Asked engine world queue tid s t v.asked;
  }

  abbrev on_main : Process F Q W V → Process F Q W V
  on_main s = step engine world queue tid s (main_turn true)

  step-main : (s : Process F Q W V) (st : Stage) → s.stage ≡ st → on_main s ≡ main_step st true s
  unfolding step
  step-main s st e = ap (λ z. main_step z true s) e

  stage-main :
      (s : Process F Q W V) (st : Stage)
      → s.stage ≡ st
      → (on_main s).stage ≡ (main_step st true s).stage
  stage-main s st e = ap (λ (z : Process F Q W V). z.stage) (step-main s st e)

  -- The objects that were declared before the pool.
  pub finish_leaving :
      (os : List Object) (s : Process F Q W V)
      → s.stage ≡ leaving os
      → has_pool os ≡ false
      → Finishes s
  unfolding run main_step
  finish_leaving [] s e none_left = ([], e)
  finish_leaving (o ∷ os) s e none_left =
      let other : is_pool o ≡ false = ground arith in
      let rest : has_pool os ≡ false = ground arith in
      let next : (on_main s).stage ≡ leaving os =
        stage-main s (leaving (o ∷ os)) e
        ∙ ap
            (λ (b : Bool).
              (if b
                then record s {
                  stage = joining_worker 0 os;
                  pool = Pool.step s.pool Pool.request_stop;
                }
                else record s { stage = leaving os }).stage)
            other in
      back s (main_turn true) (finish_leaving os (on_main s) next rest)

  abbrev turn_of : ℕ → Process F Q W V → Process F Q W V
  turn_of i s = on_worker engine world queue tid i s

  stage-worker :
      (s : Process F Q W V) (i : ℕ) (w : Worker ℕ)
      → i < worker_count
      → s.pool.workers i ≡ w
      → (turn_of i s).stage ≡ s.stage
  stage-worker s i w lt e =
      ap (λ (z : Process F Q W V). z.stage) (step-worker engine world queue tid s i w lt e)
      ∙ (worker_step-Leaves engine world queue tid i f.largest 0 w s).stage

  -- What a worker that has exited lets the main thread do.
  abbrev Onward : ℕ → List Object → Type 0
  Onward i os = (s : Process F Q W V) → Fine s → s.stage ≡ joining_worker (suc i) os → Finishes s

  stage-joined :
      (s : Process F Q W V) (i : ℕ) (os : List Object)
      → i < worker_count
      → s.pool.workers i ≡ exited
      → (main_step (joining_worker i os) true s).stage ≡ joining_worker (suc i) os
  unfolding main_step
  stage-joined s i os lt gone =
      let other : (i == worker_count) ≡ false = ground arith in
      ap
        (λ (b : Bool).
          if b
          then leaving os
          else if has_exited (s.pool.workers i)
          then joining_worker (suc i) os
          else joining_worker i os)
        other
      ∙ ap
          (λ (w : Worker ℕ).
            if has_exited w then joining_worker (suc i) os else joining_worker i os)
          gone

  -- The worker that the main thread waits for has exited.
  worker_gone :
      (i : ℕ) (os : List Object) (s : Process F Q W V)
      → i < worker_count
      → Onward i os
      → Fine s
      → s.stage ≡ joining_worker i os
      → s.pool.workers i ≡ exited
      → Finishes s
  worker_gone i os s lt onward v e gone = back s (main_turn true) (
      onward (on_main s) (Fine-step s (main_turn true) v)
        (stage-main s (joining_worker i os) e ∙ stage-joined s i os lt gone))

  finish_worker :
      (m i : ℕ) (os : List Object) (s : Process F Q W V)
      → i < worker_count
      → Onward i os
      → Fine s
      → s.stage ≡ joining_worker i os
      → work engine world queue tid i s < m
      → Finishes s
  finish_worker zero i os s lt onward v e le = absurd (omega (arith, le))
  finish_worker (suc m) i os s lt onward v e le = elim (has_exited-cases (s.pool.workers i)) [
    | inl gone ↦ worker_gone i os s lt onward v e gone
    | inr busy ↦
        let w = s.pool.workers i in
        let stopped : s.pool.stop ≡ true = v.asked.pool (rw e refl) in
        let less = works_less engine world queue tid s i w lt refl stopped busy in
        back s (worker_turn i f.largest 0) (
          finish_worker m i os (turn_of i s) lt onward (Fine-step s (worker_turn i f.largest 0) v)
            (stage-worker s i w lt refl ∙ e) (omega (arith, less, le)))
  ]

  stage-left :
      (s : Process F Q W V) (os : List Object)
      → (main_step (joining_worker worker_count os) true s).stage ≡ leaving os
  unfolding main_step
  stage-left s os = refl

  -- The worker `i` and the `d` after it.
  pub finish_joining :
      (d i : ℕ) (os : List Object) (s : Process F Q W V)
      → d + i ≡ worker_count
      → has_pool os ≡ false
      → Fine s
      → s.stage ≡ joining_worker i os
      → Finishes s
  finish_joining zero i os s all over v e =
      let last : i ≡ worker_count = omega (arith, all) in
      let here = e ∙ ap (λ k. joining_worker k os) last in
      back s (main_turn true) (
        finish_leaving os (on_main s)
          (stage-main s (joining_worker worker_count os) here ∙ stage-left s os) over)
  finish_joining (suc d) i os s all over v e =
      finish_worker (suc (work engine world queue tid i s)) i os s (omega (arith, all))
        (λ s' v' e'. finish_joining d (suc i) os s' (omega (arith, all)) over v' e') v e
        (omega arith)

  -- A stage that the main thread passes by itself.
  pub pass :
      (from to : Stage) (s : Process F Q W V)
      → s.stage ≡ from
      → (main_step from true s).stage ≡ to
      → ((s' : Process F Q W V) → Fine s' → s'.stage ≡ to → Finishes s')
      → Fine s
      → Finishes s
  pass from to s e next rest v =
      back s (main_turn true)
        (rest (on_main s) (Fine-step s (main_turn true) v) (stage-main s from e ∙ next))

  -- From the report on.
  abbrev pub Ends : Stage → Type 0
  Ends st = (s : Process F Q W V) → Fine s → s.stage ≡ st → Finishes s

  finish_3 : Ends (leaving (drop 3 locals))
  unfolding main_step
  finish_3 s v e =
      pass (leaving (drop 3 locals)) (joining_worker 0 (drop 4 locals)) s e refl
        (λ s' v' e'. finish_joining 2 0 (drop 4 locals) s' refl refl v' e') v

  finish_2 : Ends (leaving (drop 2 locals))
  unfolding main_step
  finish_2 s v e = pass (leaving (drop 2 locals)) (leaving (drop 3 locals)) s e refl finish_3 v

  finish_1 : Ends (leaving (drop 1 locals))
  unfolding main_step
  finish_1 s v e = pass (leaving (drop 1 locals)) (leaving (drop 2 locals)) s e refl finish_2 v

  finish_0 : Ends (leaving locals)
  unfolding main_step
  finish_0 s v e = pass (leaving locals) (leaving (drop 1 locals)) s e refl finish_1 v

  -- Before the pool is destroyed.
  pub finish_before : (n : ℕ) → n ≤ 3 → Ends (leaving (drop n locals))
  finish_before =
      at_most_3 (λ n. Ends (leaving (drop n locals))) finish_0 finish_1 finish_2 finish_3

  pub finish_report : Ends reporting
  unfolding main_step
  finish_report s v e = pass reporting (leaving locals) s e refl finish_0 v
