-- ===== src/Pool/Shutdown.antt =====
-- The destructor of the pool: what the workers do once a stop is requested.
use formula_one_telemetry_si.Prelude.{
  ℕ, zero, suc, ◌≤◌, ◌≡◌, refl, sym, ◌∙◌, ap, true, List, [], ◌∷◌, ◌++◌, length, update,
  update_self, append-nil, if-both, arith,
}
use formula_one_telemetry_si.Pool.{
  Worker, waiting, running, exited, ThreadPool, Turn, request_stop, wake, complete, init, take_task,
  wake_worker, complete_task, step, run,
}
use formula_one_telemetry_si.Pool.Order.{run-Inv, step-Inv, init-Inv}

module _ {T : Type 0} where
  -- `n` rounds of the worker `i`: it ends the task that it runs, if any, and goes round its loop.
  abbrev pub rounds : ℕ → ℕ → List (Turn T)
  rounds i zero = []
  rounds i (suc n) = complete i ∷ wake i ∷ rounds i n

  -- A turn of a worker, by what it does.
  step-complete :
      (s : ThreadPool T) (i : ℕ) (w : Worker T)
      → s.workers i ≡ w
      → step s (complete i) ≡ complete_task s i w
  unfolding step
  step-complete s i w e = ap (complete_task s i) e

  step-wake :
      (s : ThreadPool T) (i : ℕ) (w : Worker T)
      → s.workers i ≡ w
      → step s (wake i) ≡ wake_worker s i w
  unfolding step
  step-wake s i w e = ap (wake_worker s i) e

  -- A worker that has exited does nothing.
  run-exited : (n i : ℕ) (s : ThreadPool T) → s.workers i ≡ exited → run s (rounds i n) ≡ s
  unfolding run
  run-exited zero i s e = refl
  run-exited (suc n) i s e =
      ap (λ z. run z (wake i ∷ rounds i n)) (step-complete s i exited e)
      ∙ ap (λ z. run z (rounds i n)) (step-wake s i exited e)
      ∙ run-exited n i s e

  -- A worker that waits takes what is left, one task a round, and exits.
  exits_waiting :
      (i n : ℕ) (s : ThreadPool T) (ts : List T)
      → s.tasks ≡ ts
      → s.stop ≡ true
      → length ts ≤ n
      → s.workers i ≡ waiting
      → (run s (wake i ∷ rounds i n)).workers i ≡ exited
  unfolding run take_task
  exits_waiting i n s [] left stopped l e =
      let gone : ThreadPool T = record s { workers = update s.workers i exited } in
      let woken : step s (wake i) ≡ gone =
        step-wake s i waiting e ∙ ap (take_task s i) left ∙ (rw stopped refl) in
      let there = update_self s.workers i exited in
      ap (λ (z : ThreadPool T). (run z (rounds i n)).workers i) woken
      ∙ ap (λ (z : ThreadPool T). z.workers i) (run-exited n i gone there)
      ∙ there
  exits_waiting i zero s (t ∷ ts) left stopped l e = absurd (omega (arith, l))
  exits_waiting i (suc n) s (t ∷ ts) left stopped l e =
      let s₁ = take_task s i (t ∷ ts) in
      let s₂ = complete_task s₁ i (running t) in
      ap (λ (z : ThreadPool T). (run z (rounds i (suc n))).workers i)
        (step-wake s i waiting e ∙ ap (take_task s i) left)
      ∙ ap (λ (z : ThreadPool T). (run z (wake i ∷ rounds i n)).workers i)
          (step-complete s₁ i (running t) (update_self s.workers i (running t)))
      ∙ exits_waiting i n s₂ ts refl stopped (omega (arith, l)) (update_self s₁.workers i waiting)

  exits :
      (i : ℕ) (s : ThreadPool T) (w : Worker T)
      → s.workers i ≡ w
      → s.stop ≡ true
      → (run s (rounds i (suc (length s.tasks)))).workers i ≡ exited
  unfolding run
  exits i s exited e stopped =
      ap (λ (z : ThreadPool T). z.workers i) (run-exited (suc (length s.tasks)) i s e) ∙ e
  exits i s waiting e stopped =
      ap (λ (z : ThreadPool T). (run z (wake i ∷ rounds i (length s.tasks))).workers i)
        (step-complete s i waiting e)
      ∙ exits_waiting i (length s.tasks) s s.tasks refl stopped (omega arith) e
  exits i s (running t) e stopped =
      let s₁ = complete_task s i (running t) in
      ap (λ (z : ThreadPool T). (run z (wake i ∷ rounds i (length s.tasks))).workers i)
        (step-complete s i (running t) e)
      ∙ exits_waiting i (length s.tasks) s₁ s.tasks refl stopped (omega arith)
          (update_self s.workers i waiting)

  submitted-take_task :
      (s : ThreadPool T) (i : ℕ) (ts : List T) → (take_task s i ts).submitted ≡ s.submitted
  unfolding take_task
  submitted-take_task s i [] =
      if-both (λ (z : ThreadPool T). z.submitted ≡ s.submitted) s.stop (λ _. refl) (λ _. refl)
  submitted-take_task s i (t ∷ ts) = refl

  pub submitted-complete_task :
      (s : ThreadPool T) (i : ℕ) (w : Worker T) → (complete_task s i w).submitted ≡ s.submitted
  submitted-complete_task s i waiting = refl
  submitted-complete_task s i (running t) = refl
  submitted-complete_task s i exited = refl

  pub submitted-wake_worker :
      (s : ThreadPool T) (i : ℕ) (w : Worker T) → (wake_worker s i w).submitted ≡ s.submitted
  submitted-wake_worker s i waiting = submitted-take_task s i s.tasks
  submitted-wake_worker s i (running t) = refl
  submitted-wake_worker s i exited = refl

  submitted-rounds : (i n : ℕ) (s : ThreadPool T) → (run s (rounds i n)).submitted ≡ s.submitted
  unfolding run step
  submitted-rounds i zero s = refl
  submitted-rounds i (suc n) s =
      let s₁ = step s (complete i) in
      submitted-rounds i n (step s₁ (wake i))
      ∙ submitted-wake_worker s₁ i (s₁.workers i)
      ∙ submitted-complete_task s i (s.workers i)

  -- After any turns of a new pool, a stop and then as many rounds of any one worker as tasks wait, and
  -- one more, however the other workers stand: that worker has exited, and every task that was accepted
  -- before has been taken by a worker.
  pub shutdown :
      (ts : List (Turn T)) (i : ℕ)
      → let s = run init ts in
        let s' = run (step s request_stop) (rounds i (suc (length s.tasks))) in
        (s'.workers i ≡ exited) × (s'.started ≡ s.submitted)
  unfolding step
  shutdown ts i =
      let s = run init ts in
      let stopped = step s request_stop in
      let n = suc (length s.tasks) in
      let out = exits i stopped (s.workers i) refl refl in
      let v = run-Inv (rounds i n) stopped (step-Inv s request_stop (run-Inv ts init init-Inv)) in
      let (_, empty) = v.closed i out in
      let s' = run stopped (rounds i n) in
      (
        out,
        sym (append-nil s'.started)
            ∙ ap (λ (l : List T). s'.started ++ l) (sym empty)
            ∙ sym v.order
            ∙ submitted-rounds i n stopped,
      )
