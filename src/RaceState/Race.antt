-- ===== src/RaceState/Race.antt =====
-- Any interleaving of claims: the time ends up right, and the holder may not.
use formula_one_telemetry_si.Prelude.{
  update, update-both, ℕ, ◌≡◌, refl, ◌∙◌, ap, Bool, true, false, not, ◌&&◌, List, [], ◌∷◌, All,
  arith, Bool-cases, inl, inr,
}
use formula_one_telemetry_si.Prelude.Int.{ℤ}
use formula_one_telemetry_si.Floats.{Floats, IsOrdered}
use formula_one_telemetry_si.Floats.Order.{lt_irrefl, All-not-lt, same_bits_self}
use formula_one_telemetry_si.RaceState.Claim.{
  Claimer, outside, exchanging, storing, System, Turn, call, go_on, retest, win, begin, advance,
  run, start,
}

module _ {F : Type 0} ⦃f : Floats F⦄ where
  -- The newest time set, and the initial one before any.
  abbrev pub newest : List F → F
  newest [] = f.largest
  newest (t ∷ ts) = t

  -- Each time set is below the one set before it.
  abbrev pub Falling : List F → Type 0
  Falling [] = Unit
  Falling (t ∷ ts) = (f.lt t (newest ts) ≡ true) × Falling ts

  abbrev ClaimerOk : Claimer F → Type 0
  ClaimerOk (exchanging d ms best) = f.lt ms best ≡ true
  ClaimerOk outside = Unit
  ClaimerOk (storing d) = Unit

  record Inv (s : System F) : Type 0 where
    tested : (i : ℕ) → ClaimerOk (s.threads i)
    latest : s.fastest_lap_ms ≡ newest s.won
    falling : Falling s.won
    beaten : All (λ t. f.lt t s.fastest_lap_ms ≡ false) s.settled

  -- Driver `b` sets a lower time between the two stores of driver `a`, whose store then comes last.
  abbrev pub crossing : ℤ → ℤ → F → F → List (Turn F)
  crossing a b slow fast =
      call 0 a slow
      ∷ go_on 0 false
      ∷ call 1 b fast
      ∷ go_on 1 false
      ∷ go_on 1 false
      ∷ go_on 0 false
      ∷ []

  update-ClaimerOk :
      (threads : ℕ → Claimer F) (i : ℕ) (c : Claimer F)
      → ((j : ℕ) → ClaimerOk (threads j))
      → ClaimerOk c
      → (j : ℕ) → ClaimerOk (update threads i c j)
  update-ClaimerOk threads i c h k = update-both (λ j. ClaimerOk) threads i c k (λ j _. h j)

module _ {F : Type 0} ⦃f : Floats F⦄ (laws : IsOrdered F) where
  retest-Inv : (s : System F) (i : ℕ) (d : ℤ) (ms : F) → Inv s → Inv (retest s i d ms)
  retest-Inv s i d ms v = elim (Bool-cases (f.lt ms s.fastest_lap_ms)) [
    | inl less ↦ rw less (record {
      tested = update-ClaimerOk s.threads i (exchanging d ms s.fastest_lap_ms) v.tested less;
      latest = v.latest;
      falling = v.falling;
      beaten = v.beaten;
    })
    | inr more ↦ rw more (record {
      tested = update-ClaimerOk s.threads i outside v.tested tt;
      latest = v.latest;
      falling = v.falling;
      beaten = (more, v.beaten);
    })
  ]

  win-Inv :
      (s : System F) (i : ℕ) (d : ℤ) (ms : F)
      → f.lt ms s.fastest_lap_ms ≡ true
      → Inv s
      → Inv (win s i d ms)
  win-Inv s i d ms less v = record {
    tested = update-ClaimerOk s.threads i (storing d) v.tested tt;
    latest = refl;
    falling = (rw (← v.latest) less, v.falling);
    beaten = (lt_irrefl laws ms, All-not-lt laws s.settled ms s.fastest_lap_ms less v.beaten);
  }

  advance-Inv :
      (s : System F) (i : ℕ) (spurious : Bool) (c : Claimer F)
      → ClaimerOk c
      → Inv s
      → Inv (advance s i spurious c)
  unfolding advance
  advance-Inv s i spurious outside ok v = v
  advance-Inv s i spurious (exchanging d ms best) ok v =
      elim (Bool-cases (f.same_bits s.fastest_lap_ms best && not spurious)) [
        | inl wins ↦
            let same : s.fastest_lap_ms ≡ best =
              ground (arith, laws.same_iff s.fastest_lap_ms best) in
            rw wins (win-Inv s i d ms (ap (f.lt ms) same ∙ ok) v)
        | inr fails ↦ rw fails (retest-Inv s i d ms v)
      ]
  advance-Inv s i spurious (storing d) ok v = record {
    tested = update-ClaimerOk s.threads i outside v.tested tt;
    latest = v.latest;
    falling = v.falling;
    beaten = v.beaten;
  }

  begin-Inv :
      (s : System F) (i : ℕ) (d : ℤ) (ms : F) (c : Claimer F) → Inv s → Inv (begin s i d ms c)
  unfolding begin
  begin-Inv s i d ms outside v = retest-Inv s i d ms v
  begin-Inv s i d ms (exchanging _ _ _) v = v
  begin-Inv s i d ms (storing _) v = v

  run-Inv : (ts : List (Turn F)) (s : System F) → Inv s → Inv (run s ts)
  unfolding run
  run-Inv [] s v = v
  run-Inv (call i d ms ∷ ts) s v = run-Inv ts _ (begin-Inv s i d ms (s.threads i) v)
  run-Inv (go_on i spurious ∷ ts) s v =
      run-Inv ts _ (advance-Inv s i spurious (s.threads i) (v.tested i) v)

  -- On floats whose `<` is a strict order, after any interleaving of claims from the initial state: the
  -- fastest time is the newest time set,
  -- each time set was below the one before, and no claim that is past its last test was for a time
  -- below the fastest.
  pub run-fastest :
      (ts : List (Turn F))
      → let s = run start ts in
        (s.fastest_lap_ms ≡ newest s.won)
        × Falling s.won
        × All (λ t. f.lt t s.fastest_lap_ms ≡ false) s.settled
  run-fastest ts =
      let v =
        run-Inv ts start (record { tested = λ i. tt; latest = refl; falling = tt; beaten = tt }) in
      (v.latest, v.falling, v.beaten)

  -- On ordered floats: for a time below the initial one and a second time below the first, there is
  -- an interleaving of two claims that both
  -- succeed and return, after which the time is the second driver's and the holder the first.
  pub holder_mismatch :
      (a b : ℤ) (slow fast : F)
      → f.lt slow f.largest ≡ true
      → f.lt fast slow ≡ true
      → let s = run start (crossing a b slow fast) in
        (s.fastest_lap_ms ≡ fast)
        × (s.fastest_lap_holder ≡ a)
        × (s.won ≡ fast ∷ slow ∷ [])
        × (s.threads 0 ≡ outside)
        × (s.threads 1 ≡ outside)
  unfolding run begin advance
  holder_mismatch a b slow fast h k =
      rw (h, same_bits_self laws f.largest, k, same_bits_self laws slow)
        (refl, refl, refl, refl, refl)
