-- ===== src/Program/Process/Counted.antt =====
-- The tasks of the pool are the jobs that no worker has taken, in order, and a job that a worker has
-- taken is that worker's alone until its promise is kept.
use formula_one_telemetry_si.Prelude.{
  ℕ, zero, suc, ◌+◌, ◌≤◌, ◌<◌, ◌≡◌, ◌≢◌, refl, sym, ◌∙◌, ap, ap₂, inl, inr, false, List, [], ◌∷◌,
  ◌++◌, length, length-append, if-both, update, update-eq, arith,
}
use formula_one_telemetry_si.Pool
use formula_one_telemetry_si.Pool.{ThreadPool, Worker, waiting, running, exited, take_task}
use formula_one_telemetry_si.Telemetry.Positions.Sort.{iota}
use formula_one_telemetry_si.Program.{Entry, ready_at}
use formula_one_telemetry_si.Program.Live.{keep_promise}
use formula_one_telemetry_si.Program.Process.{submit_jobs}
use formula_one_telemetry_si.Program.Process.Promises.{
  Unready, ready_at-append, ready_at-keep_promise, length-keep_promise,
}
use formula_one_telemetry_si.Program.Process.Jobs.{numbers, submit_jobs-IsOpened}

-- The next `left` jobs from `first` on wait.
pub record Counted {F : Type 0} (jobs : List (Entry F)) (pool : ThreadPool ℕ) : Type 0 where
  pub first : ℕ
  pub left : ℕ
  pub tasks : pool.tasks ≡ iota first left
  pub whole : first + left ≡ length jobs
  pub taken : (i k : ℕ) → pool.workers i ≡ running k → k < first
  pub goes_on : (i k : ℕ) → pool.workers i ≡ running k → ready_at jobs k ≡ false
  pub waits : (k : ℕ) → first ≤ k → ready_at jobs k ≡ false
  pub alone : (i j k : ℕ) → pool.workers i ≡ running k → pool.workers j ≡ running k → i ≡ j

numbers-iota : {F : Type 0} (n : ℕ) (es : List (Entry F)) → numbers n es ≡ iota n (length es)
numbers-iota n [] = refl
numbers-iota n (e ∷ es) = ap (λ l. n ∷ l) (numbers-iota (suc n) es)

iota-append : (n a b : ℕ) → iota n a ++ iota (n + a) b ≡ iota n (a + b)
iota-append n zero b =
    let start : n + 0 ≡ n = omega arith in let size : b ≡ 0 + b = omega arith in ap₂ iota start size
iota-append n (suc a) b =
    let later : n + suc a ≡ suc n + a = omega arith in
    let size : suc (a + b) ≡ suc a + b = omega arith in
    ap (λ l. n ∷ l) (ap (λ m. iota (suc n) a ++ iota m b) later ∙ iota-append (suc n) a b)
    ∙ ap (iota n) size

module _ {F : Type 0} where
  pub init-Counted : Counted {F = F} [] Pool.init
  init-Counted = record {
    first = 0;
    left = 0;
    tasks = refl;
    whole = omega arith;
    taken = λ i k r. cc;
    goes_on = λ i k r. refl;
    waits = λ k h. refl;
    alone = λ i j k r q. cc;
  }

  pub stop-Counted :
      (jobs : List (Entry F)) (pool : ThreadPool ℕ)
      → Counted jobs pool
      → Counted jobs (Pool.step pool Pool.request_stop)
  unfolding Pool.step
  stop-Counted jobs pool v = record {
    first = v.first;
    left = v.left;
    tasks = v.tasks;
    whole = v.whole;
    taken = v.taken;
    goes_on = v.goes_on;
    waits = v.waits;
    alone = v.alone;
  }

  pub submit_jobs-Counted :
      (jobs new : List (Entry F)) (pool : ThreadPool ℕ)
      → pool.stop ≡ false
      → Unready new
      → Counted jobs pool
      → Counted (jobs ++ new) (submit_jobs (length jobs) new pool)
  submit_jobs-Counted jobs new pool open_ u v =
      let o = submit_jobs-IsOpened (length jobs) new pool open_ in
      let same : (i : ℕ) → pool.workers i ≡ (submit_jobs (length jobs) new pool).workers i =
        λ i. ap (λ (w : ℕ → Worker ℕ). w i) (sym o.same_workers) in
      record {
        first = v.first;
        left = v.left + length new;
        tasks =
            o.added
            ∙ ap (λ l. l ++ numbers (length jobs) new) v.tasks
            ∙ ap (λ l. iota v.first v.left ++ l)
                (numbers-iota (length jobs) new ∙ ap (λ n. iota n (length new)) (sym v.whole))
            ∙ iota-append v.first v.left (length new);
        whole = omega (arith, v.whole, length-append jobs new);
        taken = λ i k r. v.taken i k (same i ∙ r);
        goes_on = λ i k r. ready_at-append jobs new k u (v.goes_on i k (same i ∙ r));
        waits = λ k h. ready_at-append jobs new k u (v.waits k h);
        alone = λ i j k r q. v.alone i j k (same i ∙ r) (same j ∙ q);
      }

  module _ (jobs : List (Entry F)) (pool : ThreadPool ℕ) (i : ℕ) (v : Counted jobs pool) where
    -- A worker that runs nothing more.
    others_run :
        (w : Worker ℕ) (j k : ℕ)
        → w ≢ running k
        → update pool.workers i w j ≡ running k
        → (i ≢ j) × (pool.workers j ≡ running k)
    others_run w j k idle r = elim (update-eq pool.workers i j w (running k) r) [
      | inl (_, e) ↦ absurd (idle e)
      | inr old ↦ old
    ]

    exit-Counted : Counted jobs (record pool { workers = update pool.workers i exited })
    exit-Counted = record {
      first = v.first;
      left = v.left;
      tasks = v.tasks;
      whole = v.whole;
      taken = λ j k r. v.taken j k (others_run exited j k (λ e. cc) r).1;
      goes_on = λ j k r. v.goes_on j k (others_run exited j k (λ e. cc) r).1;
      waits = v.waits;
      alone = λ j l k r q.
          v.alone j l k (others_run exited j k (λ e. cc) r).1 (others_run exited l k (λ e. cc) q).1;
    }

    -- The worker takes the first job that waits.
    take-Counted :
        (t : ℕ) (ts : List ℕ) (n : ℕ)
        → t ∷ ts ≡ iota v.first (suc n)
        → suc n ≡ v.left
        → Counted jobs (take_task pool i (t ∷ ts))
    unfolding take_task
    take-Counted t ts n e size = record {
      first = suc v.first;
      left = n;
      tasks = cc;
      whole = omega (arith, v.whole, size);
      taken = λ j k r. elim (update-eq pool.workers i j (running t) (running k) r) [
        | inl (_, new) ↦ let now : k ≡ v.first = cc in omega (arith, now)
        | inr (_, old) ↦ omega (arith, v.taken j k old)
      ];
      goes_on = λ j k r. elim (update-eq pool.workers i j (running t) (running k) r) [
        | inl (_, new) ↦ let now : k ≡ v.first = cc in v.waits k (omega (arith, now))
        | inr (_, old) ↦ v.goes_on j k old
      ];
      waits = λ k h. v.waits k (omega (arith, h));
      alone = λ j l k r q. elim (update-eq pool.workers i j (running t) (running k) r) [
        | inl (here, new) ↦ elim (update-eq pool.workers i l (running t) (running k) q) [
          | inl (there, _) ↦ sym here ∙ there
          | inr (_, old) ↦
              let now : k ≡ v.first = cc in absurd (omega (arith, now, v.taken l k old))
        ]
        | inr (_, before) ↦ elim (update-eq pool.workers i l (running t) (running k) q) [
          | inl (_, new) ↦
              let now : k ≡ v.first = cc in absurd (omega (arith, now, v.taken j k before))
          | inr (_, old) ↦ v.alone j l k before old
        ]
      ];
    }

    take_task-Counted :
        (n : ℕ) (ts : List ℕ)
        → ts ≡ iota v.first n
        → n ≡ v.left
        → Counted jobs (take_task pool i ts)
    unfolding take_task
    take_task-Counted n [] e size = if-both (Counted jobs) pool.stop (λ _. exit-Counted) (λ _. v)
    take_task-Counted zero (t ∷ ts) e size = cc
    take_task-Counted (suc n) (t ∷ ts) e size = take-Counted t ts n e size

    pub wake-Counted : pool.workers i ≡ waiting → Counted jobs (Pool.step pool (Pool.wake i))
    unfolding Pool.step
    wake-Counted w = rw w (take_task-Counted v.left pool.tasks v.tasks refl)

    -- The worker has run the job `m`.
    pub complete-Counted :
        (m : ℕ)
        → pool.workers i ≡ running m
        → Counted (keep_promise jobs m) (Pool.step pool (Pool.complete i))
    unfolding Pool.step
    complete-Counted m w = rw w ended
      where
        runs :
            (j k : ℕ)
            → update pool.workers i waiting j ≡ running k
            → (m ≢ k) × (pool.workers j ≡ running k)
        runs j k r =
            let (other, old) = others_run waiting j k (λ e. cc) r in
            (λ same. other (v.alone i j k (w ∙ ap running same) old), old)

        ended :
            Counted (keep_promise jobs m) (record pool { workers = update pool.workers i waiting })
        ended = record {
          first = v.first;
          left = v.left;
          tasks = v.tasks;
          whole = v.whole ∙ sym (length-keep_promise jobs m);
          taken = λ j k r. v.taken j k (runs j k r).1;
          goes_on =
              λ j k r. ready_at-keep_promise jobs m k (runs j k r).0 (v.goes_on j k (runs j k r).1);
          waits = λ k h.
              ready_at-keep_promise jobs m k (λ same. omega (arith, same, v.taken i m w, h))
                (v.waits k h);
          alone = λ j l k r q. v.alone j l k (runs j k r).1 (runs l k q).1;
        }
