-- ===== src/RaceState/Alone.antt =====
-- A claim that no other thread comes between: the loop of weak exchanges against the plain function.
use formula_one_telemetry_si.Prelude.{
  update, update_self, ℕ, zero, suc, ◌≡◌, refl, ◌∙◌, ap, true, false, List, [], ◌∷◌, Bool-cases,
  inl, inr,
}
use formula_one_telemetry_si.Prelude.Int.{ℤ}
use formula_one_telemetry_si.Floats.{Floats, IsOrdered}
use formula_one_telemetry_si.Floats.Order.{same_bits_self}
use formula_one_telemetry_si.RaceState.{try_claim_fastest_lap}
use formula_one_telemetry_si.RaceState.Claim.{
  outside, exchanging, storing, System, Turn, call, go_on, begin, advance, step, run, win,
}

-- The turns of a call after its first load: `n` exchanges that fail for no reason, one that does
-- not, and the store of the holder.
abbrev pub rounds : {F : Type 0} → ℕ → ℕ → List (Turn F)
rounds i zero = go_on i false ∷ go_on i false ∷ []
rounds i (suc n) = go_on i true ∷ rounds i n

module _ {F : Type 0} ⦃f : Floats F⦄ (laws : IsOrdered F) where
  spurious :
      (s : System F) (i : ℕ) (d : ℤ) (ms : F)
      → s.threads i ≡ exchanging d ms s.fastest_lap_ms
      → f.lt ms s.fastest_lap_ms ≡ true
      → step s (go_on i true)
        ≡ record s { threads = update s.threads i (exchanging d ms s.fastest_lap_ms) }
  unfolding advance
  spurious s i d ms at less = rw (at, same_bits_self laws s.fastest_lap_ms, less) refl

  winning :
      (s : System F) (i : ℕ) (d : ℤ) (ms : F)
      → s.threads i ≡ exchanging d ms s.fastest_lap_ms
      → step s (go_on i false) ≡ win s i d ms
  unfolding advance
  winning s i d ms at = rw (at, same_bits_self laws s.fastest_lap_ms) refl

  holding :
      (s : System F) (i : ℕ) (d : ℤ)
      → s.threads i ≡ storing d
      → (step s (go_on i false)).race ≡ record s.race { fastest_lap_holder = d }
  unfolding advance
  holding s i d at = rw at refl

  rounds_win :
      (n : ℕ) (s : System F) (i : ℕ) (d : ℤ) (ms : F)
      → s.threads i ≡ exchanging d ms s.fastest_lap_ms
      → f.lt ms s.fastest_lap_ms ≡ true
      → (run s (rounds i n)).race ≡ record s.race { fastest_lap_holder = d; fastest_lap_ms = ms }
  unfolding run
  rounds_win zero s i d ms at less =
      ap (λ (t : System F). (step t (go_on i false)).race) (winning s i d ms at)
      ∙ holding (win s i d ms) i d (update_self s.threads i (storing d))
  rounds_win (suc n) s i d ms at less =
      ap (λ (t : System F). (run t (rounds i n)).race) (spurious s i d ms at less)
      ∙ rounds_win n _ i d ms (update_self s.threads i _) less

  idle : (n : ℕ) (s : System F) (i : ℕ) → s.threads i ≡ outside → run s (rounds i n) ≡ s
  unfolding run advance
  idle zero s i at = rw (at, at) refl
  idle (suc n) s i at = ap (λ (t : System F). run t (rounds i n)) (stays at) ∙ idle n s i at
    where
      stays : s.threads i ≡ outside → step s (go_on i true) ≡ s
      stays e = rw e refl

  enters :
      (s : System F) (i : ℕ) (d : ℤ) (ms : F)
      → s.threads i ≡ outside
      → f.lt ms s.fastest_lap_ms ≡ true
      → step s (call i d ms)
        ≡ record s { threads = update s.threads i (exchanging d ms s.fastest_lap_ms) }
  unfolding begin
  enters s i d ms at less = rw (at, less) refl

  leaves :
      (s : System F) (i : ℕ) (d : ℤ) (ms : F)
      → s.threads i ≡ outside
      → f.lt ms s.fastest_lap_ms ≡ false
      → step s (call i d ms)
        ≡ record s { threads = update s.threads i outside; settled = ms ∷ s.settled }
  unfolding begin
  leaves s i d ms at more = rw (at, more) refl

  -- On ordered floats: a thread that is outside calls and runs to the end with no other thread between its turns,
  -- whatever number of its exchanges fail for no reason: it leaves the race state that
  -- `try_claim_fastest_lap` as a plain function leaves.
  pub run_alone :
      (n : ℕ) (s : System F) (i : ℕ) (d : ℤ) (ms : F)
      → s.threads i ≡ outside
      → (run s (call i d ms ∷ rounds i n)).race ≡ (try_claim_fastest_lap s.race d ms).0
  unfolding run try_claim_fastest_lap
  run_alone n s i d ms at = elim (Bool-cases (f.lt ms s.fastest_lap_ms)) [
    | inl less ↦ rw less (
        ap (λ (t : System F). (run t (rounds i n)).race) (enters s i d ms at less)
        ∙ rounds_win n _ i d ms (update_self s.threads i _) less)
    | inr more ↦ rw more (
        ap (λ (t : System F). (run t (rounds i n)).race) (leaves s i d ms at more)
        ∙ ap (λ (t : System F). t.race) (idle n _ i (update_self s.threads i _)))
  ]
