-- ===== src/Program/Process/Lifetimes.antt =====
-- No thread reaches a local object of `main` that has been destroyed.
use formula_one_telemetry_si.Prelude.{
  ℕ, zero, suc, ◌≤◌, ◌<◌, ◌≡◌, ◌≢◌, refl, sym, ◌⊎◌, inl, inr, true, false, Option, none, some, List,
  [], ◌∷◌, drop, ltb, if-both, dec_lt, arith,
}
use mathlib.Core.Path.{subst}
use formula_one_telemetry_si.Floats.{Floats}
use formula_one_telemetry_si.Types.{RaceControlEvent, TrackProfile}
use formula_one_telemetry_si.Queue.{FifoQueue}
use formula_one_telemetry_si.Pool.{Worker, waiting, running, exited}
use formula_one_telemetry_si.Telemetry
use formula_one_telemetry_si.TrackLimits
use formula_one_telemetry_si.Program.{Job, check_limits, update_weather, Entry}
use formula_one_telemetry_si.Program.Live.{entry_at}
use formula_one_telemetry_si.Program.Process.{
  Object, locals, alive, Stage, starting_race, leaving, joining_worker, Generating, Consuming,
  Process, worker_count, generator_joins, jobs_of, run, new_process, after, Turn, main_turn,
  generator_turn, consumer_turn, worker_turn,
}
use formula_one_telemetry_si.Program.Process.Control.{IsControlled, Left, rank}
use formula_one_telemetry_si.Program.Process.Turns.{run-Control, new_process-Control}
use formula_one_telemetry_si.Program.Process.Reaches.{
  are_among, reaches, main_objects, generator_objects, consumer_objects, worker_objects,
  job_objects, entry_objects,
}

alive_before : (st : Stage) → rank st ≤ 9 → alive st ≡ locals
alive_before (leaving os) h = absurd (omega (arith, h))
alive_before (joining_worker i os) h = absurd (omega (arith, h))
alive_before starting_race h = refl
alive_before _ h = refl

abbrev limits_objects : List Object
limits_objects = Object.race_control_pool ∷ Object.track_limits ∷ Object.race_control_queue ∷ []

abbrev weather_objects : List Object
weather_objects = Object.race_control_pool ∷ Object.weather ∷ Object.race_control_queue ∷ []

pub at_most_3 : (P : ℕ → Type 0) → P 0 → P 1 → P 2 → P 3 → (n : ℕ) → n ≤ 3 → P n
at_most_3 P a b c d zero le = a
at_most_3 P a b c d (suc zero) le = b
at_most_3 P a b c d (suc (suc zero)) le = c
at_most_3 P a b c d (suc (suc (suc zero))) le = d
at_most_3 P a b c d (suc (suc (suc (suc n)))) le = absurd (omega (arith, le))

module _ {F : Type 0} where
  generator_alive : (g : Generating F) → are_among (generator_objects g) locals ≡ true
  generator_alive Generating.unstarted = refl
  generator_alive Generating.returned = refl
  generator_alive Generating.testing = refl
  generator_alive (Generating.moving moved rest) = refl
  generator_alive Generating.publishing = refl

  generator_idle :
      (g : Generating F) (objects : List Object)
      → (generator_joins g ≡ false) ⊎ (are_among (generator_objects g) objects ≡ true)
  generator_idle Generating.unstarted objects = inr refl
  generator_idle Generating.returned objects = inr refl
  generator_idle Generating.testing objects = inl refl
  generator_idle (Generating.moving moved rest) objects = inl refl
  generator_idle Generating.publishing objects = inl refl

  job_alive :
      (j : Job F) (n : ℕ)
      → n ≤ 3
      → are_among (Object.race_control_pool ∷ job_objects j) (drop n locals) ≡ true
  job_alive (check_limits states lap) =
      at_most_3 (λ n. are_among limits_objects (drop n locals) ≡ true) refl refl refl refl
  job_alive (update_weather lap) =
      at_most_3 (λ n. are_among weather_objects (drop n locals) ≡ true) refl refl refl refl

  entry_alive :
      (o : Option (Entry F)) (n : ℕ)
      → n ≤ 3
      → are_among (Object.race_control_pool ∷ entry_objects o) (drop n locals) ≡ true
  entry_alive none =
      at_most_3 (λ n. are_among (Object.race_control_pool ∷ []) (drop n locals) ≡ true) refl refl
        refl refl
  entry_alive (some e) = job_alive e.job

  -- What a worker reaches while the pool stands.
  worker_alive :
      (jobs : List (Entry F)) (w : Worker ℕ) (n : ℕ)
      → n ≤ 3
      → are_among (worker_objects jobs w) (drop n locals) ≡ true
  worker_alive jobs waiting =
      at_most_3 (λ n. are_among (Object.race_control_pool ∷ []) (drop n locals) ≡ true) refl refl
        refl refl
  worker_alive jobs (running k) = entry_alive (entry_at jobs k)
  worker_alive jobs exited = λ n le. refl

consumer_alive : (c : Consuming) → are_among (consumer_objects c) locals ≡ true
consumer_alive Consuming.unstarted = refl
consumer_alive Consuming.returned = refl
consumer_alive Consuming.polling = refl
consumer_alive Consuming.draining = refl

consumer_idle :
    (c : Consuming) (objects : List Object)
    → (c ≢ Consuming.returned) ⊎ (are_among (consumer_objects c) objects ≡ true)
consumer_idle Consuming.unstarted objects = inr refl
consumer_idle Consuming.returned objects = inr refl
consumer_idle Consuming.polling objects = inl (λ e. cc)
consumer_idle Consuming.draining objects = inl (λ e. cc)

-- The main thread destroys one object at a time.
main_alive : (st : Stage) → are_among (main_objects st) (alive st) ≡ true
main_alive (leaving []) = refl
main_alive (leaving (o ∷ os)) = ground arith
main_alive starting_race = refl
main_alive _ = refl

module _ {F Q W V : Type 0} (s : Process F Q W V) (v : IsControlled s) where
  generator_turn_alive : are_among (generator_objects s.generating) (alive s.stage) ≡ true
  generator_turn_alive = elim (generator_idle s.generating (alive s.stage)) [
    | inl busy ↦
        let early : rank s.stage ≤ 9 = ground (arith, v.generator_over) in
        subst (λ l. are_among (generator_objects s.generating) l ≡ true)
          (sym (alive_before s.stage early)) (generator_alive s.generating)
    | inr idle ↦ idle
  ]

  consumer_turn_alive : are_among (consumer_objects s.consuming) (alive s.stage) ≡ true
  consumer_turn_alive = elim (consumer_idle s.consuming (alive s.stage)) [
    | inl busy ↦
        let early : rank s.stage ≤ 9 = elim (dec_lt 9 (rank s.stage)) [
          | yes late ↦ absurd (busy (v.consumer_over (omega arith)))
          | no early ↦ omega arith
        ] in
        subst (λ l. are_among (consumer_objects s.consuming) l ≡ true)
          (sym (alive_before s.stage early)) (consumer_alive s.consuming)
    | inr idle ↦ idle
  ]

  worker_turn_alive :
      (st : Stage) (i : ℕ)
      → Left st s.pool
      → i < worker_count
      → are_among (worker_objects (jobs_of s) (s.pool.workers i)) (alive st) ≡ true
  worker_turn_alive (leaving os) i (inl (n, le, e)) lt =
      rw e (worker_alive (jobs_of s) (s.pool.workers i) n le)
  worker_turn_alive (leaving os) i (inr (over, out)) lt = rw (out i lt) refl
  worker_turn_alive (joining_worker k os) i (e, le, out) lt =
      rw e (worker_alive (jobs_of s) (s.pool.workers i) 3 (omega arith))
  worker_turn_alive starting_race i l lt =
      worker_alive (jobs_of s) (s.pool.workers i) 0 (omega arith)
  worker_turn_alive _ i l lt = worker_alive (jobs_of s) (s.pool.workers i) 0 (omega arith)

  turn_alive : (t : Turn F) → are_among (reaches s t) (alive s.stage) ≡ true
  turn_alive (main_turn timed_out) = main_alive s.stage
  turn_alive (generator_turn fuel clock) = generator_turn_alive
  turn_alive consumer_turn = consumer_turn_alive
  turn_alive (worker_turn i coin now) =
      if-both (λ l. are_among l (alive s.stage) ≡ true) (ltb i worker_count)
        (λ lt. worker_turn_alive s.stage i v.left (ground arith)) (λ _. refl)

-- After any turns of the threads of `main`, whichever thread takes the next turn: every local object of
-- `main` that it reaches has not been destroyed.
pub no_dangling :
    {F Q W V : Type 0} ⦃f : Floats F⦄ (engine : Telemetry.World F V) (world : TrackLimits.World F W)
    (queue : FifoQueue Q RaceControlEvent) (tid : ℕ) (track : TrackProfile F) (events : Q)
    (limits : W) (w : V) (ts : List (Turn F)) (t : Turn F)
    → let s = after engine world queue tid track events limits w ts in
      are_among (reaches s t) (alive s.stage) ≡ true
no_dangling engine world queue tid track events limits w ts t =
    let s₀ = new_process engine track events limits w in
    turn_alive (run engine world queue tid s₀ ts)
      (run-Control engine world queue tid s₀ ts (new_process-Control engine track events limits w))
      t
