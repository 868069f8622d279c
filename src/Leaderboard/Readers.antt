-- ===== src/Leaderboard/Readers.antt =====
-- What readers of the leaderboard get, and who writes it.
use formula_one_telemetry_si.Prelude.{
  ℕ, suc, ◌≡◌, refl, true, false, none, some, List, [], ◌∷◌, ◌==◌, if◌then◌else◌, if-both, All, ◌⊎◌,
  inl, inr, Bool-cases, arith, ap, ◌∙◌, get_elem?,
}
use formula_one_telemetry_si.Prelude.Forall.{All-mono}
use formula_one_telemetry_si.Prelude.Text.{Text}
use formula_one_telemetry_si.Floats.{Floats, IsOrdered}
use formula_one_telemetry_si.Floats.Order.{lt_trans, lt_irrefl, lt_asymm}
use formula_one_telemetry_si.Types.{DriverState, zero_f}
use formula_one_telemetry_si.Leaderboard.{
  Leaderboard, empty, update, improves, best_from, fastest_lap_holder,
}

-- Calls of `update` in the order in which they get the lock.
pub record Call (F : Type 0) : Type 0 where
  pub tid : ℕ
  pub sorted_standings : List (DriverState F)

module _ {F : Type 0} where
  -- A call that throws leaves the board as it is.
  unfoldable pub attempt : Leaderboard F → Call F → Leaderboard F
  attempt b c = elim (update b c.tid c.sorted_standings) [ none ↦ b | some b' ↦ b' ]

  unfoldable pub attempts : Leaderboard F → List (Call F) → Leaderboard F
  attempts b [] = b
  attempts b (c ∷ cs) = attempts (attempt b c) cs

  -- The standings of the last call of a thread, or `before`.
  abbrev pub last_of : ℕ → List (DriverState F) → List (Call F) → List (DriverState F)
  last_of tid before [] = before
  last_of tid before (c ∷ cs) = last_of tid (if tid == c.tid then c.sorted_standings else before) cs

  attempt-claimed :
      (tid : ℕ) (states : List (DriverState F)) (c : Call F)
      → attempt (record { standings = states; writer_id = some tid }) c ≡ record {
        standings = if tid == c.tid then c.sorted_standings else states;
        writer_id = some tid;
      }
  unfolding attempt update
  attempt-claimed tid states c = ground arith

  attempts-claimed :
      (cs : List (Call F)) (tid : ℕ) (states : List (DriverState F))
      → attempts (record { standings = states; writer_id = some tid }) cs
        ≡ record { standings = last_of tid states cs; writer_id = some tid }
  unfolding attempts
  attempts-claimed [] tid states = refl
  attempts-claimed (c ∷ cs) tid states =
      ap (λ b. attempts b cs) (attempt-claimed tid states c) ∙ attempts-claimed cs tid _

  -- Whatever threads call `update` on a new leaderboard, in whatever order: the first caller is the
  -- writer for good, and the standings are those of the writer's last call.
  pub attempts_single_writer :
      (first : Call F) (cs : List (Call F))
      → attempts empty (first ∷ cs) ≡ record {
        standings = last_of first.tid first.sorted_standings cs;
        writer_id = some first.tid;
      }
  unfolding attempts attempt update
  attempts_single_writer first cs = attempts-claimed cs first.tid first.sorted_standings

module _ {F : Type 0} ⦃f : Floats F⦄ where
  -- No best lap is above 0 and below `best`.
  abbrev pub NoneBetter : F → List (DriverState F) → Type 0
  NoneBetter best =
      All (λ s. (f.lt zero_f s.best_lap_ms ≡ false) ⊎ (f.lt s.best_lap_ms best ≡ false))

  abbrev pub HasLap : DriverState F → Type 0
  HasLap s = (f.lt zero_f s.best_lap_ms ≡ true) × (f.lt s.best_lap_ms f.largest ≡ true)

module _ {F : Type 0} ⦃f : Floats F⦄ where
  abbrev NoneImproves : F → List (DriverState F) → Type 0
  NoneImproves best = All (λ s. improves best s ≡ false)

  NoneImproves-NoneBetter :
      (best : F) (states : List (DriverState F)) → NoneImproves best states → NoneBetter best states
  NoneImproves-NoneBetter best states = All-mono _ _ states (λ s h.
      elim (Bool-cases (f.lt zero_f s.best_lap_ms)) [
        | inl set ↦ inr (ground (arith, h))
        | inr unset ↦ inl unset
      ])

module _ {F : Type 0} ⦃f : Floats F⦄ (laws : IsOrdered F) where
  worse :
      (s : DriverState F) (best better : F)
      → improves best s ≡ false
      → f.lt better best ≡ true
      → improves better s ≡ false
  worse s best better h l = ground (arith, lt_trans laws s.best_lap_ms better best)

  -- The loop ends with the holder it had, or with the id of a driver of the list.
  abbrev Outcome : F → Text → List (DriverState F) → Text → Type 0
  Outcome best holder states r =
      ((r ≡ holder) × NoneImproves best states)
      ⊎ ((i : ℕ) × (s : DriverState F) × (get_elem? states i ≡ some s)
          × (r ≡ s.profile.id)
          × (improves best s ≡ true)
          × NoneImproves s.best_lap_ms states)

  take_best :
      (best : F) (holder : Text) (s : DriverState F) (rest : List (DriverState F)) (r : Text)
      → improves best s ≡ true
      → Outcome s.best_lap_ms s.profile.id rest r
      → Outcome best holder (s ∷ rest) r
  take_best best holder s rest r better o = elim o [
    | inl (e, others) ↦
        inr (0, s, refl, e, better, (ground (arith, lt_irrefl laws s.best_lap_ms), others))
    | inr (i, t, at, e, better', others) ↦ inr (
      suc i,
      t,
      at,
      e,
      ground (arith, lt_trans laws t.best_lap_ms s.best_lap_ms best),
      (ground (arith, lt_asymm laws t.best_lap_ms s.best_lap_ms), others),
    )
  ]

  keep_best :
      (best : F) (holder : Text) (s : DriverState F) (rest : List (DriverState F)) (r : Text)
      → improves best s ≡ false
      → Outcome best holder rest r
      → Outcome best holder (s ∷ rest) r
  keep_best best holder s rest r no_better o = elim o [
    | inl (e, others) ↦ inl (e, (no_better, others))
    | inr (i, t, at, e, better, others) ↦
        inr (suc i, t, at, e, better, (worse s best t.best_lap_ms no_better (ground arith), others))
  ]

  outcome :
      (best : F) (holder : Text) (states : List (DriverState F))
      → Outcome best holder states (best_from best holder states)
  unfolding best_from
  outcome best holder [] = inl (refl, tt)
  outcome best holder (s ∷ rest) =
      if-both (Outcome best holder (s ∷ rest)) (improves best s)
        (λ better. take_best best holder s rest _ better (outcome s.best_lap_ms s.profile.id rest))
        (λ no_better. keep_best best holder s rest _ no_better (outcome best holder rest))

  -- On floats whose `<` is a strict order, `fastest_lap_holder` is empty where no driver has set a
  -- lap below the largest float, or is the id of a driver who has, and whose best lap no driver's
  -- best lap is below; laps that are not above 0 do not count.
  pub fastest_lap_holder_lem :
      (b : Leaderboard F)
      → ((fastest_lap_holder b ≡ []) × NoneBetter f.largest b.standings)
        ⊎ ((i : ℕ) × (s : DriverState F) × (get_elem? b.standings i ≡ some s)
            × (fastest_lap_holder b ≡ s.profile.id)
            × HasLap s
            × NoneBetter s.best_lap_ms b.standings)
  fastest_lap_holder_lem b = elim (outcome f.largest [] b.standings) [
    | inl (e, none_set) ↦ inl (e, NoneImproves-NoneBetter _ _ none_set)
    | inr (i, s, at, e, best, others) ↦ inr (
      i,
      s,
      at,
      e,
      (ground (arith, best), ground (arith, best)),
      NoneImproves-NoneBetter _ _ others,
    )
  ]
