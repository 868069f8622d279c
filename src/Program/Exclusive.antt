-- ===== src/Program/Exclusive.antt =====
-- Each of the two periodic jobs runs at most once at a time.
use formula_one_telemetry_si.Prelude.{
  ℕ, zero, suc, ◌%◌, ◌==◌, ◌≡◌, refl, sym, ◌∙◌, ap, Bool, true, false, not, ◌&&◌, Option, some,
  List, [], ◌∷◌, ◌⊎◌, inl, inr, length, if-both, arith,
}
use mathlib.Core.Path.{subst}
use formula_one_telemetry_si.Types.{DriverState}
use formula_one_telemetry_si.Program.{
  Job, check_limits, update_weather, Entry, Flights, ready_at, is_idle, submit, start_check,
  start_weather, start_jobs,
}
use formula_one_telemetry_si.Program.Live.{entry_at, keep_promise}

module _ {F : Type 0} where
  abbrev pub is_check : Job F → Bool
  is_check (check_limits _ _) = true
  is_check (update_weather _) = false

  -- Whether the job `k` is going and is a check, or is an update.
  abbrev pub is_going : Bool → List (Entry F) → ℕ → Bool
  is_going check [] k = false
  is_going true (e ∷ es) zero = is_check e.job && not e.ready
  is_going false (e ∷ es) zero = not (is_check e.job) && not e.ready
  is_going check (e ∷ es) (suc k) = is_going check es k

  going-ready :
      (check : Bool) (jobs : List (Entry F)) (k : ℕ)
      → is_going check jobs k ≡ true
      → ready_at jobs k ≡ false
  going-ready check [] k h = cc
  going-ready true (e ∷ es) zero h = ground arith
  going-ready false (e ∷ es) zero h = ground arith
  going-ready true (e ∷ es) (suc k) h = going-ready true es k h
  going-ready false (e ∷ es) (suc k) h = going-ready false es k h

  going-keep_promise :
      (check : Bool) (jobs : List (Entry F)) (j k : ℕ)
      → is_going check (keep_promise jobs j) k ≡ true
      → is_going check jobs k ≡ true
  going-keep_promise check [] j k h = cc
  going-keep_promise true (e ∷ es) zero zero h = ground arith
  going-keep_promise false (e ∷ es) zero zero h = ground arith
  going-keep_promise true (e ∷ es) zero (suc k) h = h
  going-keep_promise false (e ∷ es) zero (suc k) h = h
  going-keep_promise true (e ∷ es) (suc j) zero h = h
  going-keep_promise false (e ∷ es) (suc j) zero h = h
  going-keep_promise true (e ∷ es) (suc j) (suc k) h = going-keep_promise true es j k h
  going-keep_promise false (e ∷ es) (suc j) (suc k) h = going-keep_promise false es j k h

  going-submit :
      (check : Bool) (jobs : List (Entry F)) (job : Job F) (k : ℕ)
      → is_going check (submit jobs job) k ≡ true
      → (is_going check jobs k ≡ true) ⊎ ((k ≡ length jobs) × (is_check job ≡ check))
  going-submit true [] job zero h = inr (refl, ground arith)
  going-submit false [] job zero h = inr (refl, ground arith)
  going-submit check [] job (suc k) h = cc
  going-submit true (e ∷ es) job zero h = inl h
  going-submit false (e ∷ es) job zero h = inl h
  going-submit true (e ∷ es) job (suc k) h = elim (going-submit true es job k h) [
    | inl old ↦ inl old
    | inr (new, same) ↦ inr (ap suc new, same)
  ]
  going-submit false (e ∷ es) job (suc k) h = elim (going-submit false es job k h) [
    | inl old ↦ inl old
    | inr (new, same) ↦ inr (ap suc new, same)
  ]

  -- A job that is going is that of its future.
  abbrev pub Single : Flights F → Type 0
  Single s =
      ((k : ℕ) → is_going true s.jobs k ≡ true → s.track_limits_future ≡ some k)
      × ((k : ℕ) → is_going false s.jobs k ≡ true → s.weather_future ≡ some k)

  -- A job whose future is idle is not going.
  idle-not_going :
      (check : Bool) (jobs : List (Entry F)) (future : Option ℕ) (k : ℕ)
      → is_idle jobs future ≡ true
      → (is_going check jobs k ≡ true → future ≡ some k)
      → is_going check jobs k ≡ true
      → ⊥
  idle-not_going check jobs future k idle h going =
      let ended : ready_at jobs k ≡ true = ap (is_idle jobs) (sym (h going)) ∙ idle in
      let waits = going-ready check jobs k going in cc

  start_check-Single :
      (lap : ℕ) (states : List (DriverState F)) (s : Flights F)
      → Single s
      → Single (start_check lap states s)
  unfolding start_check
  start_check-Single lap states s v =
      if-both Single (is_idle s.jobs s.track_limits_future)
        (λ idle. (
          λ k h. elim (going-submit true s.jobs (check_limits states lap) k h) [
            | inl old ↦ absurd (idle-not_going true s.jobs s.track_limits_future k idle (v.0 k) old)
            | inr (new, _) ↦ ap some (sym new)
          ],
          λ k h. elim (going-submit false s.jobs (check_limits states lap) k h) [
            | inl old ↦ v.1 k old
            | inr (_, other) ↦ cc
          ],
        ))
        (λ _. v)

  start_weather-Single : (lap : ℕ) (s : Flights F) → Single s → Single (start_weather lap s)
  unfolding start_weather
  start_weather-Single lap s v =
      if-both Single (is_idle s.jobs s.weather_future)
        (λ idle. (
          λ k h. elim (going-submit true s.jobs (update_weather lap) k h) [
            | inl old ↦ v.0 k old
            | inr (_, other) ↦ cc
          ],
          λ k h. elim (going-submit false s.jobs (update_weather lap) k h) [
            | inl old ↦ absurd (idle-not_going false s.jobs s.weather_future k idle (v.1 k) old)
            | inr (new, _) ↦ ap some (sym new)
          ],
        ))
        (λ _. v)

  pub start_jobs-Single :
      (n lap : ℕ) (states : List (DriverState F)) (s : Flights F)
      → Single s
      → Single (start_jobs n lap states s)
  unfolding start_jobs
  start_jobs-Single n lap states s v =
      start_weather-Single lap _
        (if-both Single (n % 9 == 0) (λ _. start_check-Single lap states s v) (λ _. v))

  pub keep_promise-Single :
      (s : Flights F) (m : ℕ) → Single s → Single (record s { jobs = keep_promise s.jobs m })
  keep_promise-Single s m v = (
    λ k h. v.0 k (going-keep_promise true s.jobs m k h),
    λ k h. v.1 k (going-keep_promise false s.jobs m k h),
  )

  -- Two jobs of one kind that are both going are the same job.
  pub Single-unique :
      (s : Flights F) (check : Bool) (j k : ℕ)
      → Single s
      → is_going check s.jobs j ≡ true
      → is_going check s.jobs k ≡ true
      → j ≡ k
  Single-unique s true j k v a b = let both = sym (v.0 j a) ∙ v.0 k b in cc
  Single-unique s false j k v a b = let both = sym (v.1 j a) ∙ v.1 k b in cc

  -- A job whose promise is not kept is going.
  pub entry-is_going :
      (jobs : List (Entry F)) (k : ℕ) (e : Entry F)
      → entry_at jobs k ≡ some e
      → ready_at jobs k ≡ false
      → is_going (is_check e.job) jobs k ≡ true
  entry-is_going [] k e at open_ = cc
  entry-is_going (j ∷ js) zero e at open_ =
      let same : j ≡ e = cc in
      subst (λ (z : Entry F). is_going (is_check z.job) (j ∷ js) 0 ≡ true) same
        (here j.job j.ready open_)
    where
      here :
          (w : Job F) (r : Bool)
          → r ≡ false
          → is_going (is_check w) (record { job = w; ready = r } ∷ js) 0 ≡ true
      here (check_limits _ _) r h = ground arith
      here (update_weather _) r h = ground arith
  entry-is_going (j ∷ js) (suc k) e at open_ =
      later (is_check e.job) (entry-is_going js k e at open_)
    where
      later : (b : Bool) → is_going b js k ≡ true → is_going b (j ∷ js) (suc k) ≡ true
      later true h = h
      later false h = h
