-- ===== src/Program/Process/Control.antt =====
-- Which threads are over at which stage of the main thread.
use formula_one_telemetry_si.Prelude.{
  ℕ, zero, suc, ◌≤◌, ◌<◌, ◌≡◌, ◌≢◌, refl, ◌⊎◌, inl, inr, Bool, true, false, ◌||◌, List, [], ◌∷◌,
  drop, arith,
}
use formula_one_telemetry_si.Pool.{ThreadPool, Worker, waiting, running, exited}
use formula_one_telemetry_si.Program.Process.{
  Object, locals, is_pool, Stage, starting_race, starting_generator, starting_consumer, watching,
  ending_race, stopping_generator, joining_generator, stopping_consumer, joining_consumer,
  reporting, leaving, joining_worker, Generating, Consuming, Process, worker_count, generator_joins,
  consumer_joins, has_exited,
}

-- The stages in order.
abbrev pub rank : Stage → ℕ
rank starting_race = 0
rank starting_generator = 1
rank starting_consumer = 2
rank watching = 3
rank ending_race = 4
rank stopping_generator = 5
rank joining_generator = 6
rank stopping_consumer = 7
rank joining_consumer = 8
rank reporting = 9
rank (leaving objects) = 10
rank (joining_worker i objects) = 10

abbrev pub has_pool : List Object → Bool
has_pool [] = false
has_pool (o ∷ os) = is_pool o || has_pool os

-- The first `n` workers have exited.
abbrev pub Exited : {T : Type 0} → ℕ → ThreadPool T → Type 0
Exited n pool = (j : ℕ) → j < n → pool.workers j ≡ exited

-- Until the pool is destroyed the objects declared before it are there; then its workers have exited.
abbrev pub Left : {T : Type 0} → Stage → ThreadPool T → Type 0
Left (leaving objects) pool =
    ((n : ℕ) × (n ≤ 3) × (objects ≡ drop n locals))
    ⊎ ((has_pool objects ≡ false) × Exited worker_count pool)
Left (joining_worker i objects) pool =
    (objects ≡ drop 4 locals) × (i ≤ worker_count) × Exited i pool
Left _ pool = Unit

pub record Control {T : Type 0} {F : Type 0} (stage : Stage) (generating : Generating F)
    (consuming : Consuming) (consumer_stop : Bool) (pool : ThreadPool T) : Type 0 where
  pub generator_over : 7 ≤ rank stage → generator_joins generating ≡ true
  pub consumer_over : 9 ≤ rank stage → consuming ≡ Consuming.returned
  pub consumer_started : consuming ≡ Consuming.unstarted → rank stage ≤ 2
  pub stop_requested : consumer_stop ≡ true → 8 ≤ rank stage
  pub drains : consuming ≡ Consuming.draining → consumer_stop ≡ true
  pub drained : consuming ≡ Consuming.returned → consumer_stop ≡ true
  pub pool_stopped : pool.stop ≡ true → 10 ≤ rank stage
  pub left : Left stage pool

abbrev pub IsControlled : {F Q W V : Type 0} → Process F Q W V → Type 0
IsControlled s = Control s.stage s.generating s.consuming s.consumer_stop s.pool

pub has_exited-cases : {T : Type 0} (w : Worker T) → (w ≡ exited) ⊎ (has_exited w ≡ false)
has_exited-cases waiting = inr refl
has_exited-cases (running task) = inr refl
has_exited-cases exited = inl refl

pub joins-returned :
    (c : Consuming) → c ≢ Consuming.unstarted → consumer_joins c ≡ true → c ≡ Consuming.returned
joins-returned Consuming.unstarted h e = absurd (h refl)
joins-returned Consuming.polling h e = cc
joins-returned Consuming.draining h e = cc
joins-returned Consuming.returned h e = refl

-- A destruction before that of the pool, or that of the pool.
pub destroy-Left :
    {T : Type 0} (pool : ThreadPool T) (n : ℕ) (o : Object) (os : List Object)
    → n ≤ 3
    → o ∷ os ≡ drop n locals
    → ((is_pool o ≡ false) × Left (leaving os) pool) ⊎ ((is_pool o ≡ true) × (os ≡ drop 4 locals))
destroy-Left pool zero o os le e =
    let first : o ≡ Object.tick_counter = cc in inl (rw first refl, inl (1, omega arith, (cc)))
destroy-Left pool (suc zero) o os le e =
    let first : o ≡ Object.weather_future = cc in inl (rw first refl, inl (2, omega arith, (cc)))
destroy-Left pool (suc (suc zero)) o os le e =
    let first : o ≡ Object.track_limits_future = cc in
    inl (rw first refl, inl (3, omega arith, (cc)))
destroy-Left pool (suc (suc (suc zero))) o os le e =
    let first : o ≡ Object.race_control_pool = cc in inr (rw first refl, (cc))
destroy-Left pool (suc (suc (suc (suc n)))) o os le e = absurd (omega (arith, le))

rank_le : (st : Stage) → rank st ≤ 10
rank_le starting_race = omega arith
rank_le _ = omega arith

module _ {T F : Type 0} {g : Generating F} {c : Consuming} {asked : Bool}
    {pool : ThreadPool T} where
  -- The main thread goes on.
  pub advance :
      (from to : Stage)
      → Control from g c asked pool
      → rank from ≤ rank to
      → (7 ≤ rank to → generator_joins g ≡ true)
      → (9 ≤ rank to → c ≡ Consuming.returned)
      → (c ≡ Consuming.unstarted → rank to ≤ 2)
      → Left to pool
      → Control to g c asked pool
  advance from to v le over over' started left = record {
    generator_over = over;
    consumer_over = over';
    consumer_started = started;
    stop_requested = λ h. omega (arith, v.stop_requested h);
    drains = v.drains;
    drained = v.drained;
    pool_stopped = λ h. omega (arith, v.pool_stopped h);
    left = left;
  }

  pub started : (st : Stage) → Control st g c asked pool → 3 ≤ rank st → c ≢ Consuming.unstarted
  started st v le e = omega (arith, v.consumer_started e)

  -- Past the report, from a stage to a stage.
  pub leave :
      (from to : Stage)
      → Control from g c asked pool
      → 9 ≤ rank from
      → rank to ≡ 10
      → Left to pool
      → Control to g c asked pool
  leave from to v late end left =
      advance from to v (omega (arith, rank_le from)) (λ _. v.generator_over (omega arith))
        (λ _. v.consumer_over late) (λ e. absurd (started from v (omega arith) e)) left

  -- Before the end of the race, from a stage to the next but for the starts.
  pub proceed :
      (from to : Stage)
      → Control from g c asked pool
      → 3 ≤ rank from
      → rank from ≤ rank to
      → rank to ≤ 6
      → Left to pool
      → Control to g c asked pool
  proceed from to v late le early left =
      advance from to v le (λ h. absurd (omega (arith, h))) (λ h. absurd (omega (arith, h)))
        (λ e. absurd (started from v late e)) left
