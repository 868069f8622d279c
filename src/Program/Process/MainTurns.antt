-- ===== src/Program/Process/MainTurns.antt =====
-- The turns of the main thread keep the order in which threads end.
use formula_one_telemetry_si.Prelude.{
  ℕ, suc, ◌≡◌, refl, sym, ◌∙◌, ap, inl, inr, Bool, true, false, ◌||◌, List, [], ◌∷◌, ◌==◌, drop,
  Bool-cases, if-both, arith,
}
use formula_one_telemetry_si.Pool
use formula_one_telemetry_si.Pool.{
  ThreadPool, Worker, waiting, running, exited, take_task, wake_worker, complete_task,
}
use formula_one_telemetry_si.Program.Process.{
  Object, locals, is_pool, Stage, starting_race, starting_generator, starting_consumer, watching,
  ending_race, stopping_generator, joining_generator, stopping_consumer, joining_consumer,
  reporting, leaving, joining_worker, Process, worker_count, generator_joins, consumer_joins,
  has_exited, main_step,
}
use formula_one_telemetry_si.Program.Process.Control.{
  Control, IsControlled, Left, has_exited-cases, joins-returned, destroy-Left, advance, leave,
  proceed, started,
}

-- The turns of the main thread.
module _ {F Q W V : Type 0} (s : Process F Q W V) where
  abbrev pub Kept : Stage → Type 0
  Kept st = Control st s.generating s.consuming s.consumer_stop s.pool

  abbrev pub Keeps : Stage → Bool → Type 0
  Keeps st t = s.stage ≡ st → Kept st → IsControlled (main_step st t s)

  joining-Keeps : (i : ℕ) (os : List Object) (t : Bool) → Keeps (joining_worker i os) t
  unfolding main_step
  joining-Keeps i os t e v =
      let (objects, le, out) = v.left in
      if-both (λ z. Control z s.generating s.consuming s.consumer_stop s.pool) (i == worker_count)
        (λ all.
          leave (joining_worker i os) (leaving os) v (omega arith) refl
            (inr (rw objects refl, λ j lt. out j (ground arith))))
        (λ more. elim (has_exited-cases (s.pool.workers i)) [
          | inl gone ↦ rw (ap has_exited gone) (
              leave (joining_worker i os) (joining_worker (suc i) os) v (omega arith) refl (
                objects,
                ground arith,
                λ j lt. elim (Bool-cases (i == j)) [
                  | inl here ↦
                      let same : i ≡ j = ground arith in ap s.pool.workers (sym same) ∙ gone
                  | inr there ↦ out j (ground arith)
                ],
              ))
          | inr busy ↦ rw busy v
        ])

  next_destroyed :
      (o : Object) (os : List Object) (t : Bool)
      → Kept (leaving (o ∷ os))
      → is_pool o ≡ false
      → Left (leaving os) s.pool
      → IsControlled (main_step (leaving (o ∷ os)) t s)
  unfolding main_step
  next_destroyed o os t v other left =
      rw other (leave (leaving (o ∷ os)) (leaving os) v (omega arith) refl left)

  pool_destroyed :
      (o : Object) (os : List Object) (t : Bool)
      → Kept (leaving (o ∷ os))
      → is_pool o ≡ true
      → os ≡ drop 4 locals
      → IsControlled (main_step (leaving (o ∷ os)) t s)
  unfolding main_step Pool.step
  pool_destroyed o os t v here e = rw here (record {
    generator_over = λ _. v.generator_over (omega arith);
    consumer_over = λ _. v.consumer_over (omega arith);
    consumer_started = λ h. absurd (started (leaving (o ∷ os)) v (omega arith) h);
    stop_requested = λ _. omega arith;
    drains = v.drains;
    drained = v.drained;
    pool_stopped = λ _. omega arith;
    left = (e, omega arith, λ j lt. absurd (omega (arith, lt)));
  })

  destroy-Keeps :
      (o : Object) (os : List Object) (t : Bool)
      → Kept (leaving (o ∷ os))
      → IsControlled (main_step (leaving (o ∷ os)) t s)
  destroy-Keeps o os t v = elim v.left [
    | inl (n, le, e) ↦ elim (destroy-Left s.pool n o os le e) [
      | inl (other, left) ↦ next_destroyed o os t v other left
      | inr (here, rest) ↦ pool_destroyed o os t v here rest
    ]
    | inr (over, out) ↦ next_destroyed o os t v (ground arith) (inr (ground arith, out))
  ]

  pub main_step-Control : (st : Stage) (t : Bool) → Keeps st t
  unfolding main_step
  main_step-Control starting_race t e v =
      advance starting_race starting_generator v (omega arith) (λ h. absurd (omega (arith, h)))
        (λ h. absurd (omega (arith, h))) (λ _. omega arith) tt
  main_step-Control starting_generator t e v = record {
    generator_over = λ h. absurd (omega (arith, h));
    consumer_over = λ h. absurd (omega (arith, h));
    consumer_started = λ _. omega arith;
    stop_requested = λ h. absurd (omega (arith, v.stop_requested h));
    drains = v.drains;
    drained = v.drained;
    pool_stopped = λ h. absurd (omega (arith, v.pool_stopped h));
    left = tt;
  }
  main_step-Control starting_consumer t e v = record {
    generator_over = λ h. absurd (omega (arith, h));
    consumer_over = λ h. absurd (omega (arith, h));
    consumer_started = λ h. cc;
    stop_requested = λ h. absurd (omega (arith, v.stop_requested h));
    drains = λ h. cc;
    drained = λ h. cc;
    pool_stopped = λ h. absurd (omega (arith, v.pool_stopped h));
    left = tt;
  }
  main_step-Control watching t e v =
      if-both (λ z. Kept z) (s.generator.race_finished || t)
        (λ _. proceed watching ending_race v (omega arith) (omega arith) (omega arith) tt) (λ _. v)
  main_step-Control ending_race t e v =
      proceed ending_race stopping_generator v (omega arith) (omega arith) (omega arith) tt
  main_step-Control stopping_generator t e v =
      proceed stopping_generator joining_generator v (omega arith) (omega arith) (omega arith) tt
  main_step-Control joining_generator t e v =
      if-both (λ z. Kept z) (generator_joins s.generating)
        (λ over.
          advance joining_generator stopping_consumer v (omega arith) (λ _. over)
            (λ h. absurd (omega (arith, h)))
            (λ e. absurd (started joining_generator v (omega arith) e)) tt)
        (λ _. v)
  main_step-Control stopping_consumer t e v = record {
    generator_over = λ _. v.generator_over (omega arith);
    consumer_over = λ h. absurd (omega (arith, h));
    consumer_started = λ h. absurd (started stopping_consumer v (omega arith) h);
    stop_requested = λ _. omega arith;
    drains = λ _. refl;
    drained = λ _. refl;
    pool_stopped = λ h. absurd (omega (arith, v.pool_stopped h));
    left = tt;
  }
  main_step-Control joining_consumer t e v =
      if-both (λ z. Kept z) (consumer_joins s.consuming)
        (λ over.
          advance joining_consumer reporting v (omega arith) (λ _. v.generator_over (omega arith))
            (λ _. joins-returned s.consuming (started joining_consumer v (omega arith)) over)
            (λ h. absurd (started joining_consumer v (omega arith) h)) tt)
        (λ _. v)
  main_step-Control reporting t e v =
      leave reporting (leaving locals) v (omega arith) refl (inl (0, omega arith, refl))
  main_step-Control (leaving []) t e v = rw e v
  main_step-Control (leaving (o ∷ os)) t e v = destroy-Keeps o os t v
  main_step-Control (joining_worker i os) t e v = joining-Keeps i os t e v
