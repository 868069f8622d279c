-- ===== src/Tests/Pools.antt =====
-- The pool of src/concurrency/thread_pool.h with two workers.
use formula_one_telemetry_si.Prelude.{ℕ, ◌≡◌, refl, true, List, [], ◌∷◌, length, suc}
use formula_one_telemetry_si.Pool.{
  ThreadPool, Turn, submit, request_stop, wake, complete, init, run, step, accept, take_task,
}
use formula_one_telemetry_si.Pool.Order.{exited_drained}
use formula_one_telemetry_si.Pool.{exited}
use formula_one_telemetry_si.Pool.Shutdown.{rounds, shutdown}

-- Three tasks; a stop is requested while one still waits, and a later task is refused.
abbrev day : List (Turn ℕ)
day =
    submit 10
    ∷ submit 11
    ∷ wake 0
    ∷ wake 1
    ∷ submit 12
    ∷ request_stop
    ∷ submit 13
    ∷ complete 0
    ∷ wake 0
    ∷ complete 1
    ∷ wake 1
    ∷ []

abbrev end : ThreadPool ℕ
end = run init day

end-started : end.started ≡ 10 ∷ 11 ∷ 12 ∷ []
unfolding run step accept take_task
end-started = refl

exited_drained_example :
    let later = run end (submit 14 ∷ wake 0 ∷ []) in
    (later.stop ≡ true) × (later.submitted ≡ end.submitted) × (later.started ≡ end.submitted)
unfolding run step accept take_task
exited_drained_example = exited_drained day (submit 14 ∷ wake 0 ∷ []) 1 refl

-- Two tasks wait and one runs; the worker 1 empties the pool.
abbrev open_day : List (Turn ℕ)
open_day = submit 10 ∷ wake 1 ∷ submit 11 ∷ submit 12 ∷ []

shutdown_example :
    let s = run init open_day in
    let end = run (step s request_stop) (rounds 1 (suc (length s.tasks))) in
    (end.workers 1 ≡ exited) × (end.started ≡ s.submitted)
shutdown_example = shutdown open_day 1
