-- ===== src/Program/Process/Promises.antt =====
-- Which promises have been kept, as jobs are added and run.
use formula_one_telemetry_si.Prelude.{
  ℕ, zero, suc, ◌≡◌, ◌≢◌, refl, ap, false, List, [], ◌∷◌, ◌++◌, length, All,
}
use formula_one_telemetry_si.Program.{Entry, ready_at}
use formula_one_telemetry_si.Program.Live.{keep_promise}

module _ {F : Type 0} where
  abbrev pub Unready : List (Entry F) → Type 0
  Unready = All (λ e. e.ready ≡ false)

  Unready-ready_at : (new : List (Entry F)) (k : ℕ) → Unready new → ready_at new k ≡ false
  Unready-ready_at [] k u = refl
  Unready-ready_at (e ∷ es) zero u = u.0
  Unready-ready_at (e ∷ es) (suc k) u = Unready-ready_at es k u.1

  pub ready_at-append :
      (jobs new : List (Entry F)) (k : ℕ)
      → Unready new
      → ready_at jobs k ≡ false
      → ready_at (jobs ++ new) k ≡ false
  ready_at-append [] new k u h = Unready-ready_at new k u
  ready_at-append (e ∷ es) new zero u h = h
  ready_at-append (e ∷ es) new (suc k) u h = ready_at-append es new k u h

  pub ready_at-keep_promise :
      (jobs : List (Entry F)) (m k : ℕ)
      → m ≢ k
      → ready_at jobs k ≡ false
      → ready_at (keep_promise jobs m) k ≡ false
  ready_at-keep_promise [] m k other h = refl
  ready_at-keep_promise (e ∷ es) zero zero other h = absurd (other refl)
  ready_at-keep_promise (e ∷ es) zero (suc k) other h = h
  ready_at-keep_promise (e ∷ es) (suc m) zero other h = h
  ready_at-keep_promise (e ∷ es) (suc m) (suc k) other h =
      ready_at-keep_promise es m k (λ same. other (ap suc same)) h

  pub length-keep_promise :
      (jobs : List (Entry F)) (m : ℕ) → length (keep_promise jobs m) ≡ length jobs
  length-keep_promise [] m = refl
  length-keep_promise (e ∷ es) zero = refl
  length-keep_promise (e ∷ es) (suc m) = ap suc (length-keep_promise es m)
