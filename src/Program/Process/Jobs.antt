-- ===== src/Program/Process/Jobs.antt =====
-- Every job that is submitted runs before `main` is over.
use formula_one_telemetry_si.Prelude.{
  ℕ, zero, suc, ◌+◌, ◌<◌, ◌≡◌, refl, sym, ◌∙◌, ap, ◌⊎◌, inl, inr, true, false, none, some, List, [],
  ◌∷◌, ◌++◌, append-nil, append_assoc, length, Bool-cases, All, arith,
}
use mathlib.Core.Path.{subst}
use formula_one_telemetry_si.Pool
use formula_one_telemetry_si.Pool.{
  ThreadPool, Worker, waiting, running, exited, accept, take_task, wake_worker, complete_task,
}
use formula_one_telemetry_si.Program.{Entry}
use formula_one_telemetry_si.Program.Live.{entry_at, keep_promise}
use formula_one_telemetry_si.Program.Process.{worker_count, submit_jobs}
use formula_one_telemetry_si.Program.Process.Pending.{
  Has, Has-append_left, Has-append_right, IsPending, Tracked, take_task-IsPending,
  complete-IsPending, entry_at-keep_promise,
}

-- The tasks of the jobs submitted to a pool that has not been stopped.
abbrev pub numbers : {F : Type 0} → ℕ → List (Entry F) → List ℕ
numbers n [] = []
numbers n (e ∷ es) = n ∷ numbers (suc n) es

pub record IsOpened {F : Type 0} (n : ℕ) (es : List (Entry F)) (pool pool' : ThreadPool ℕ)
    : Type 0 where
  pub added : pool'.tasks ≡ pool.tasks ++ numbers n es
  pub same_workers : pool'.workers ≡ pool.workers

pub submit_jobs-IsOpened :
    {F : Type 0} (n : ℕ) (es : List (Entry F)) (pool : ThreadPool ℕ)
    → pool.stop ≡ false
    → IsOpened n es pool (submit_jobs n es pool)
unfolding accept
submit_jobs-IsOpened n [] pool open_ = record {
  added = sym (append-nil pool.tasks);
  same_workers = refl;
}
submit_jobs-IsOpened n (e ∷ es) pool open_ =
    let after : ThreadPool ℕ = record pool {
      tasks = pool.tasks ++ n ∷ [];
      submitted = pool.submitted ++ n ∷ [];
    } in
    let accepted : accept pool n ≡ after = rw (open_, accept) refl in
    let v = submit_jobs-IsOpened (suc n) es after open_ in
    rw accepted (record {
      added = v.added ∙ append_assoc pool.tasks (n ∷ []) (numbers (suc n) es);
      same_workers = v.same_workers;
    })

Has-numbers :
    {F : Type 0} (n k : ℕ) (es : List (Entry F)) (e : Entry F)
    → entry_at es k ≡ some e
    → Has (n + k) (numbers n es)
Has-numbers n k [] e at = cc
Has-numbers n zero (x ∷ es) e at = inl (omega arith)
Has-numbers n (suc k) (x ∷ es) e at =
    let later : n + suc k ≡ suc n + k = omega arith in
    inr (subst (λ z. Has z (numbers (suc n) es)) (sym later) (Has-numbers (suc n) k es e at))

-- A job among those before, or one of the new ones.
entry_at-append :
    {F : Type 0} (old new : List (Entry F)) (k : ℕ) (e : Entry F)
    → entry_at (old ++ new) k ≡ some e
    → (entry_at old k ≡ some e) ⊎ ((m : ℕ) × (k ≡ length old + m) × (entry_at new m ≡ some e))
entry_at-append [] new k e at = inr (k, omega arith, at)
entry_at-append (o ∷ old) new zero e at = inl at
entry_at-append (o ∷ old) new (suc k) e at = elim (entry_at-append old new k e at) [
  | inl before ↦ inl before
  | inr (m, later, there) ↦ inr (m, omega (arith, later), there)
]

not-IsPending :
    (pool : ThreadPool ℕ) (k : ℕ)
    → pool.tasks ≡ []
    → ((i : ℕ) → i < worker_count → pool.workers i ≡ exited)
    → ¬ IsPending pool k
not-IsPending pool k none_left out (inl h) = subst (Has k) none_left h
not-IsPending pool k none_left out (inr (i, lt, r)) = let both = sym (out i lt) ∙ r in cc

module _ {F : Type 0} where
  -- New jobs have been submitted.
  pub submit_jobs-Tracked :
      (jobs new : List (Entry F)) (pool : ThreadPool ℕ)
      → pool.stop ≡ false
      → Tracked jobs pool
      → Tracked (jobs ++ new) (submit_jobs (length jobs) new pool)
  submit_jobs-Tracked jobs new pool open_ v k e at unready =
      let o = submit_jobs-IsOpened (length jobs) new pool open_ in
      elim (entry_at-append jobs new k e at) [
        | inl before ↦ elim (v k e before unready) [
          | inl h ↦ inl (
              subst (Has k) (sym o.added)
                (Has-append_left k pool.tasks (numbers (length jobs) new) h))
          | inr (i, lt, r) ↦ inr (i, lt, ap (λ (w : ℕ → Worker ℕ). w i) o.same_workers ∙ r)
        ]
        | inr (m, later, there) ↦ inl (
            subst (Has k) (sym o.added) (
              Has-append_right k pool.tasks (numbers (length jobs) new) (
                subst (λ z. Has z (numbers (length jobs) new)) (sym later)
                  (Has-numbers (length jobs) m new e there))))
      ]

  pub stop-Tracked :
      (jobs : List (Entry F)) (pool : ThreadPool ℕ)
      → Tracked jobs pool
      → Tracked jobs (Pool.step pool Pool.request_stop)
  unfolding Pool.step
  stop-Tracked jobs pool v = v

  pub wake-Tracked :
      (jobs : List (Entry F)) (pool : ThreadPool ℕ) (i : ℕ)
      → i < worker_count
      → pool.workers i ≡ waiting
      → Tracked jobs pool
      → Tracked jobs (Pool.step pool (Pool.wake i))
  unfolding Pool.step
  wake-Tracked jobs pool i lt w v k e at unready =
      rw w (take_task-IsPending pool i k pool.tasks lt refl w (v k e at unready))

  -- The worker `i` has run the job `m`.
  pub complete-Tracked :
      (jobs : List (Entry F)) (pool : ThreadPool ℕ) (i m : ℕ)
      → pool.workers i ≡ running m
      → Tracked jobs pool
      → Tracked (keep_promise jobs m) (Pool.step pool (Pool.complete i))
  complete-Tracked jobs pool i m w v k e at unready =
      let (before, other) = entry_at-keep_promise jobs m k e at unready in
      complete-IsPending pool i k m w other (v k e before unready)

  All-ready :
      (jobs : List (Entry F))
      → ((k : ℕ) (e : Entry F) → entry_at jobs k ≡ some e → e.ready ≡ true)
      → All (λ e. e.ready ≡ true) jobs
  All-ready [] h = tt
  All-ready (e ∷ es) h = (h 0 e refl, All-ready es (λ k e at. h (suc k) e at))

  -- With nothing pending every promise has been kept.
  pub Tracked-done :
      (jobs : List (Entry F)) (pool : ThreadPool ℕ)
      → pool.tasks ≡ []
      → ((i : ℕ) → i < worker_count → pool.workers i ≡ exited)
      → Tracked jobs pool
      → All (λ e. e.ready ≡ true) jobs
  Tracked-done jobs pool none_left out v = All-ready jobs (λ k e at. elim (Bool-cases e.ready) [
    | inl done ↦ done
    | inr open_ ↦ absurd (not-IsPending pool k none_left out (v k e at open_))
  ])

  -- Keeping the promise of a job that has run, or of none, changes nothing.
  pub keep_promise-none :
      (jobs : List (Entry F)) (k : ℕ) → entry_at jobs k ≡ none → keep_promise jobs k ≡ jobs
  keep_promise-none [] k e = refl
  keep_promise-none (j ∷ js) zero e = cc
  keep_promise-none (j ∷ js) (suc k) e = ap (λ l. j ∷ l) (keep_promise-none js k e)

  pub keep_promise-ready :
      (jobs : List (Entry F)) (k : ℕ) (e : Entry F)
      → entry_at jobs k ≡ some e
      → e.ready ≡ true
      → keep_promise jobs k ≡ jobs
  keep_promise-ready [] k e at done = refl
  keep_promise-ready (j ∷ js) zero e at done = ground arith
  keep_promise-ready (j ∷ js) (suc k) e at done =
      ap (λ l. j ∷ l) (keep_promise-ready js k e at done)
