-- ===== src/Pool/Exits.antt =====
-- What the turns of workers and submissions leave as it is.
use formula_one_telemetry_si.Prelude.{
  ℕ, ◌≡◌, refl, sym, ◌∙◌, ap, List, [], ◌∷◌, ◌==◌, Bool-cases, inl, inr, if-both, update, arith,
}
use formula_one_telemetry_si.Pool.{
  Worker, waiting, running, exited, ThreadPool, wake, complete, accept, take_task, wake_worker,
  complete_task, step,
}

module _ {T : Type 0} where
  -- A worker that has exited has exited for good, and no turn of a worker stops the pool.
  pub record Goes (s t : ThreadPool T) : Type 0 where
    pub same_stop : t.stop ≡ s.stop
    pub still : (j : ℕ) → s.workers j ≡ exited → t.workers j ≡ exited

  abbrev Goes-self : (s : ThreadPool T) → Goes s s
  Goes-self s = record { same_stop = refl; still = λ j e. e }

  update-still :
      (s : ThreadPool T) (i j : ℕ) (w v : Worker T)
      → s.workers i ≡ v
      → (v ≡ exited → w ≡ exited)
      → s.workers j ≡ exited
      → update s.workers i w j ≡ exited
  update-still s i j w v here next e = elim (Bool-cases (i == j)) [
    | inl same ↦ rw same (next (sym here ∙ ap s.workers (ground arith) ∙ e))
    | inr other ↦ rw other e
  ]

  take_task-Goes :
      (s : ThreadPool T) (i : ℕ) (ts : List T) → s.workers i ≡ waiting → Goes s (take_task s i ts)
  unfolding take_task
  take_task-Goes s i [] w =
      if-both (Goes s) s.stop
        (λ _. record {
          same_stop = refl;
          still = λ j e. update-still s i j exited waiting w (λ _. refl) e;
        })
        (λ _. Goes-self s)
  take_task-Goes s i (t ∷ ts) w = record {
    same_stop = refl;
    still = λ j e. update-still s i j (running t) waiting w (λ h. cc) e;
  }

  wake_worker-Goes :
      (s : ThreadPool T) (i : ℕ) (w : Worker T) → s.workers i ≡ w → Goes s (wake_worker s i w)
  wake_worker-Goes s i waiting e = take_task-Goes s i s.tasks e
  wake_worker-Goes s i (running t) e = Goes-self s
  wake_worker-Goes s i exited e = Goes-self s

  complete_task-Goes :
      (s : ThreadPool T) (i : ℕ) (w : Worker T) → s.workers i ≡ w → Goes s (complete_task s i w)
  complete_task-Goes s i waiting e = Goes-self s
  complete_task-Goes s i (running t) e = record {
    same_stop = refl;
    still = λ j gone. update-still s i j waiting (running t) e (λ h. cc) gone;
  }
  complete_task-Goes s i exited e = Goes-self s

  pub wake-Goes : (s : ThreadPool T) (i : ℕ) → Goes s (step s (wake i))
  unfolding step
  wake-Goes s i = wake_worker-Goes s i (s.workers i) refl

  pub complete-Goes : (s : ThreadPool T) (i : ℕ) → Goes s (step s (complete i))
  unfolding step
  complete-Goes s i = complete_task-Goes s i (s.workers i) refl

  pub accept-Goes : (s : ThreadPool T) (t : T) → Goes s (accept s t)
  unfolding accept
  accept-Goes s t =
      if-both (Goes s) s.stop (λ _. Goes-self s)
        (λ _. record { same_stop = refl; still = λ j e. e })
