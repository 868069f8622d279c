-- ===== src/Pool.antt =====
-- src/concurrency/thread_pool.h and thread_pool.cpp: the tasks behind a mutex, and the workers that
-- take them. What a thread does while it holds the mutex is one turn. A worker that the condition
-- variable wakes for nothing goes on waiting. `submitted` and `started` list the tasks that `submit`
-- accepted and that workers took, oldest first.
pub mod Order
pub mod Shutdown
pub mod Exits
use formula_one_telemetry_si.Prelude.{
  ℕ, Bool, true, false, List, [], ◌∷◌, ◌++◌, ◌==◌, if◌then◌else◌, update,
}

pub data Worker (T : Type 0) : Type 0 where
  waiting : Worker T
  running : (task : T) → Worker T
  exited : Worker T

pub record ThreadPool (T : Type 0) : Type 0 where
  pub tasks : List T
  pub stop : Bool
  pub workers : ℕ → Worker T
  pub submitted : List T
  pub started : List T

pub data Turn (T : Type 0) : Type 0 where
  submit : (task : T) → Turn T
  request_stop : Turn T  -- the destructor
  wake : (worker : ℕ) → Turn T
  complete : (worker : ℕ) → Turn T

module _ {T : Type 0} where
  abbrev pub init : ThreadPool T
  init = record { tasks = []; stop = false; workers = λ _. waiting; submitted = []; started = [] }

  -- `submit` on a stopped pool throws and changes nothing.
  unfoldable pub accept : ThreadPool T → T → ThreadPool T
  accept s task =
      if s.stop
      then s
      else record s { tasks = s.tasks ++ task ∷ []; submitted = s.submitted ++ task ∷ [] }

  -- The part of `worker_loop` under the lock, for the tasks as they stand.
  unfoldable pub take_task : ThreadPool T → ℕ → List T → ThreadPool T
  take_task s i [] = if s.stop then record s { workers = update s.workers i exited } else s
  take_task s i (task ∷ rest) = record s {
    tasks = rest;
    workers = update s.workers i (running task);
    started = s.started ++ task ∷ [];
  }

  abbrev pub wake_worker : ThreadPool T → ℕ → Worker T → ThreadPool T
  wake_worker s i waiting = take_task s i s.tasks
  wake_worker s i (running task) = s
  wake_worker s i exited = s

  -- A task has returned, and the loop starts again.
  abbrev pub complete_task : ThreadPool T → ℕ → Worker T → ThreadPool T
  complete_task s i waiting = s
  complete_task s i (running task) = record s { workers = update s.workers i waiting }
  complete_task s i exited = s

  unfoldable pub step : ThreadPool T → Turn T → ThreadPool T
  step s (submit task) = accept s task
  step s request_stop = record s { stop = true }
  step s (wake i) = wake_worker s i (s.workers i)
  step s (complete i) = complete_task s i (s.workers i)

  unfoldable pub run : ThreadPool T → List (Turn T) → ThreadPool T
  run s [] = s
  run s (t ∷ ts) = run (step s t) ts
