-- ===== src/Pool/Order.antt =====
-- The order in which tasks start, and that none is left when a worker exits.
use formula_one_telemetry_si.Prelude.{
  ℕ, ◌==◌, ◌≡◌, refl, sym, ◌∙◌, ap, true, List, [], ◌∷◌, ◌++◌, if-both, Bool-cases, inl, inr,
  append-nil, append_assoc,
}
use formula_one_telemetry_si.Pool.{
  Worker, waiting, running, exited, ThreadPool, Turn, submit, request_stop, wake, complete, init,
  accept, take_task, wake_worker, complete_task, step, run,
}

module _ {T : Type 0} where
  pub record Inv (s : ThreadPool T) : Type 0 where
    pub order : s.submitted ≡ s.started ++ s.tasks
    pub closed : (i : ℕ) → s.workers i ≡ exited → (s.stop ≡ true) × (s.tasks ≡ [])

  pub accept-Inv : (s : ThreadPool T) (task : T) → Inv s → Inv (accept s task)
  unfolding accept
  accept-Inv s task v =
      if-both Inv s.stop (λ _. v)
        (λ open_. record {
          order =
              ap (λ (l : List T). l ++ task ∷ []) v.order
              ∙ append_assoc s.started s.tasks (task ∷ []);
          closed = λ i e. let (stopped, _) = v.closed i e in cc;
        })

  take_task-Inv :
      (s : ThreadPool T) (i : ℕ) (ts : List T) → s.tasks ≡ ts → Inv s → Inv (take_task s i ts)
  unfolding take_task
  take_task-Inv s i [] none_left v =
      if-both Inv s.stop
        (λ stopped. record { order = v.order; closed = λ j e. (stopped, none_left) }) (λ _. v)
  take_task-Inv s i (task ∷ rest) some_left v = record {
    order =
        v.order
        ∙ ap (λ (l : List T). s.started ++ l) some_left
        ∙ sym (append_assoc s.started (task ∷ []) rest);
    closed = λ j e. elim (Bool-cases (i == j)) [
      | inl here ↦ let run_here : running task ≡ exited = rw here at e in cc
      | inr there ↦ let (_, empty) = v.closed j (rw there at e) in cc
    ];
  }

  pub step-Inv : (s : ThreadPool T) (t : Turn T) → Inv s → Inv (step s t)
  unfolding step
  step-Inv s (submit task) v = accept-Inv s task v
  step-Inv s request_stop v = record {
    order = v.order;
    closed = λ i e. let (_, empty) = v.closed i e in (refl, empty);
  }
  step-Inv s (wake i) v = go (s.workers i)
    where
      go : (w : Worker T) → Inv (wake_worker s i w)
      go waiting = take_task-Inv s i s.tasks refl v
      go (running task) = v
      go exited = v
  step-Inv s (complete i) v = go (s.workers i)
    where
      go : (w : Worker T) → Inv (complete_task s i w)
      go waiting = v
      go (running task) = record {
        order = v.order;
        closed = λ j e. elim (Bool-cases (i == j)) [
          | inl here ↦ let wait_here : waiting ≡ exited = rw here at e in cc
          | inr there ↦ v.closed j (rw there at e)
        ];
      }
      go exited = v

  pub run-Inv : (ts : List (Turn T)) (s : ThreadPool T) → Inv s → Inv (run s ts)
  unfolding run
  run-Inv [] s v = v
  run-Inv (t ∷ ts) s v = run-Inv ts (step s t) (step-Inv s t v)

  pub init-Inv : Inv (init {T = T})
  init-Inv = record { order = refl; closed = λ i e. cc }

  -- After any turns of a new pool, the tasks that workers took are the first of the tasks accepted,
  -- in the order of their submission, each once; the rest waits.
  pub started_in_order :
      (ts : List (Turn T)) → let s = run init ts in s.submitted ≡ s.started ++ s.tasks
  started_in_order ts = (run-Inv ts init init-Inv).order

  -- Stopped, with nothing to do.
  record IsClosed (submitted started : List T) (s : ThreadPool T) : Type 0 where
    stopped : s.stop ≡ true
    none_left : s.tasks ≡ []
    no_more : s.submitted ≡ submitted
    no_start : s.started ≡ started

  take_task-IsClosed :
      (a b : List T) (s : ThreadPool T) (i : ℕ) (ts : List T)
      → s.tasks ≡ ts
      → IsClosed a b s
      → IsClosed a b (take_task s i ts)
  unfolding take_task
  take_task-IsClosed a b s i [] e v =
      if-both (IsClosed a b) s.stop
        (λ _. record {
          stopped = v.stopped;
          none_left = v.none_left;
          no_more = v.no_more;
          no_start = v.no_start;
        })
        (λ _. v)
  take_task-IsClosed a b s i (task ∷ rest) e v = let both = sym e ∙ v.none_left in cc

  step-IsClosed :
      (a b : List T) (s : ThreadPool T) (t : Turn T) → IsClosed a b s → IsClosed a b (step s t)
  unfolding step accept
  step-IsClosed a b s (submit task) v =
      if-both (IsClosed a b) s.stop (λ _. v) (λ open_. let both = sym v.stopped ∙ open_ in cc)
  step-IsClosed a b s request_stop v = record {
    stopped = refl;
    none_left = v.none_left;
    no_more = v.no_more;
    no_start = v.no_start;
  }
  step-IsClosed a b s (wake i) v = go (s.workers i)
    where
      go : (w : Worker T) → IsClosed a b (wake_worker s i w)
      go waiting = take_task-IsClosed a b s i s.tasks refl v
      go (running task) = v
      go exited = v
  step-IsClosed a b s (complete i) v = go (s.workers i)
    where
      go : (w : Worker T) → IsClosed a b (complete_task s i w)
      go waiting = v
      go (running task) = record {
        stopped = v.stopped;
        none_left = v.none_left;
        no_more = v.no_more;
        no_start = v.no_start;
      }
      go exited = v

  run-IsClosed :
      (a b : List T) (ts : List (Turn T)) (s : ThreadPool T)
      → IsClosed a b s
      → IsClosed a b (run s ts)
  unfolding run
  run-IsClosed a b [] s v = v
  run-IsClosed a b (t ∷ ts) s v = run-IsClosed a b ts (step s t) (step-IsClosed a b s t v)

  -- Once a worker of a new pool has exited, whatever turns follow: the pool has been stopped, every task
  -- that was accepted has been taken by a worker, and no task is accepted or taken any more.
  pub exited_drained :
      (ts us : List (Turn T)) (i : ℕ)
      → (run init ts).workers i ≡ exited
      → let s = run init ts in
        let s' = run s us in
        (s'.stop ≡ true) × (s'.submitted ≡ s.submitted) × (s'.started ≡ s.submitted)
  exited_drained ts us i e =
      let s = run init ts in
      let v = run-Inv ts init init-Inv in
      let (stopped, empty) = v.closed i e in
      let all = v.order ∙ ap (λ (l : List T). s.started ++ l) empty ∙ append-nil s.started in
      let c =
        run-IsClosed s.submitted s.submitted us s
          (record { stopped = stopped; none_left = empty; no_more = refl; no_start = sym all }) in
      (c.stopped, c.no_more, c.no_start)
