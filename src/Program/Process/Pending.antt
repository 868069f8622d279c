-- ===== src/Program/Process/Pending.antt =====
-- The tasks of the pool that no worker has ended, and the promises of the jobs.
use formula_one_telemetry_si.Prelude.{
  ℕ, zero, suc, ◌<◌, ◌≡◌, ◌≢◌, sym, ◌∙◌, ap, ◌⊎◌, inl, inr, true, false, some, List, [], ◌∷◌, ◌++◌,
  update, update_self, update_ne, if-both, arith,
}
use mathlib.Core.Path.{subst}
use formula_one_telemetry_si.Pool
use formula_one_telemetry_si.Pool.{
  ThreadPool, Worker, waiting, running, exited, accept, take_task, wake_worker, complete_task,
}
use formula_one_telemetry_si.Program.{Entry}
use formula_one_telemetry_si.Program.Live.{entry_at, keep_promise}
use formula_one_telemetry_si.Program.Process.{worker_count}

abbrev pub Has : ℕ → List ℕ → Type 0
Has k [] = ⊥
Has k (x ∷ xs) = (k ≡ x) ⊎ Has k xs

pub Has-append_left : (k : ℕ) (xs ys : List ℕ) → Has k xs → Has k (xs ++ ys)
Has-append_left k (x ∷ xs) ys (inl e) = inl e
Has-append_left k (x ∷ xs) ys (inr h) = inr (Has-append_left k xs ys h)
Has-append_left k [] ys h = absurd h

pub Has-append_right : (k : ℕ) (xs ys : List ℕ) → Has k ys → Has k (xs ++ ys)
Has-append_right k [] ys h = h
Has-append_right k (x ∷ xs) ys h = inr (Has-append_right k xs ys h)

-- The task waits, or a worker runs it.
abbrev pub IsPending : ThreadPool ℕ → ℕ → Type 0
IsPending pool k = Has k pool.tasks ⊎ ((i : ℕ) × (i < worker_count) × (pool.workers i ≡ running k))

-- A job whose promise is not kept is pending.
abbrev pub Tracked : {F : Type 0} → List (Entry F) → ThreadPool ℕ → Type 0
Tracked jobs pool =
    (k : ℕ) (e : Entry _) → entry_at jobs k ≡ some e → e.ready ≡ false → IsPending pool k

-- A turn of the worker `i` leaves what another runs.
still_runs :
    (pool : ThreadPool ℕ) (i j k : ℕ) (v w : Worker ℕ)
    → pool.workers i ≡ v
    → v ≢ running k
    → pool.workers j ≡ running k
    → update pool.workers i w j ≡ running k
still_runs pool i j k v w here other r =
    update_ne pool.workers i j w (λ same. other (sym here ∙ ap pool.workers same ∙ r)) ∙ r

wait_ne_run : (k : ℕ) → ◌≢◌ {A = Worker ℕ} waiting (running k)
wait_ne_run k e = cc

pub take_task-IsPending :
    (pool : ThreadPool ℕ) (i k : ℕ) (ts : List ℕ)
    → i < worker_count
    → pool.tasks ≡ ts
    → pool.workers i ≡ waiting
    → IsPending pool k
    → IsPending (take_task pool i ts) k
unfolding take_task
take_task-IsPending pool i k [] lt e w (inl h) = absurd (subst (Has k) e h)
take_task-IsPending pool i k [] lt e w (inr (j, ltj, r)) =
    if-both (λ z. IsPending z k) pool.stop
      (λ _. inr (j, ltj, still_runs pool i j k waiting exited w (wait_ne_run k) r))
      (λ _. inr (j, ltj, r))
take_task-IsPending pool i k (t ∷ ts) lt e w (inl h) = here (subst (Has k) e h)
  where
    here : Has k (t ∷ ts) → IsPending (take_task pool i (t ∷ ts)) k
    here (inl same) = inr (i, lt, update_self pool.workers i (running t) ∙ ap running (sym same))
    here (inr there) = inl there
take_task-IsPending pool i k (t ∷ ts) lt e w (inr (j, ltj, r)) =
    inr (j, ltj, still_runs pool i j k waiting (running t) w (wait_ne_run k) r)

-- The worker has ended another task.
pub complete-IsPending :
    (pool : ThreadPool ℕ) (i k m : ℕ)
    → pool.workers i ≡ running m
    → m ≢ k
    → IsPending pool k
    → IsPending (Pool.step pool (Pool.complete i)) k
unfolding Pool.step
complete-IsPending pool i k m w other p = rw w (go p)
  where
    go : IsPending pool k → IsPending (complete_task pool i (running m)) k
    go (inl h) = inl h
    go (inr (j, lt, r)) = inr (
      j,
      lt,
      still_runs pool i j k (running m) waiting w (λ (e : running m ≡ running k). other (cc)) r,
    )

-- The entries once the promise of the job `m` is kept.
pub entry_at-keep_promise :
    {F : Type 0} (jobs : List (Entry F)) (m k : ℕ) (e : Entry F)
    → entry_at (keep_promise jobs m) k ≡ some e
    → e.ready ≡ false
    → (entry_at jobs k ≡ some e) × (m ≢ k)
entry_at-keep_promise [] m k e at open_ = absurd (cc)
entry_at-keep_promise (j ∷ js) zero zero e at open_ =
    let same : record j { ready = true } ≡ e = ground arith in
    let both = ap (λ (z : Entry _). z.ready) same ∙ open_ in absurd (cc)
entry_at-keep_promise (j ∷ js) zero (suc k) e at open_ = (at, λ h. omega (arith, h))
entry_at-keep_promise (j ∷ js) (suc m) zero e at open_ = (at, λ h. omega (arith, h))
entry_at-keep_promise (j ∷ js) (suc m) (suc k) e at open_ =
    let (there, other) = entry_at-keep_promise js m k e at open_ in
    (there, λ h. other (omega (arith, h)))
