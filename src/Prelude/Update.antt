-- ===== src/Prelude/Update.antt =====
-- A family of values, one for each thread or index, with one of them replaced.
use Prim.Native.Nat.{ℕ}
use mathlib.Core.Path.{◌≡◌, refl, sym}
use mathlib.Core.Logic.{◌≢◌, ◌⊎◌, inl, inr}
use mathlib.Core.Bool.{false}
use mathlib.Core.Path.{fun_ext}
use native.Mathlib.Omega.{arith}
use formula_one_telemetry_si.Prelude.Tests.{◌==◌, ==_iff, if◌then◌else◌, Bool-cases}

module _ {ℓ} {A : Type ℓ} where
  abbrev pub update : (ℕ → A) → ℕ → A → ℕ → A
  update f i a j = if i == j then a else f j

  pub update_self : (f : ℕ → A) (i : ℕ) (a : A) → update f i a i ≡ a
  update_self f i a = let same = (==_iff i i).1 refl in rw same refl

  pub update_ne : (f : ℕ → A) (i j : ℕ) (a : A) → i ≢ j → update f i a j ≡ f j
  update_ne f i j a ne = let apart : (i == j) ≡ false = ground arith in rw apart refl

  -- A property of every index: at the one replaced, and at the others.
  pub update-both {κ} :
      (P : ℕ → A → Type κ) (f : ℕ → A) (i : ℕ) (a : A)
      → P i a
      → ((j : ℕ) → i ≢ j → P j (f j))
      → (j : ℕ) → P j (update f i a j)
  update-both P f i a h k j = elim (Bool-cases (i == j)) [
    | inl here ↦ let same = (==_iff i j).0 here in rw (here, ← same) h
    | inr there ↦ rw there (k j (λ e. ground (arith, ==_iff i j)))
  ]

  -- Whose value it is.
  pub update-eq :
      (f : ℕ → A) (i j : ℕ) (a x : A)
      → update f i a j ≡ x
      → ((i ≡ j) × (a ≡ x)) ⊎ ((i ≢ j) × (f j ≡ x))
  update-eq f i j a x = elim (Bool-cases (i == j)) [
    | inl here ↦ rw here (λ e. inl ((==_iff i j).0 here, e))
    | inr there ↦ rw there (λ e. inr ((λ s. ground (arith, ==_iff i j)), e))
  ]

  -- A value put where it stands already.
  pub update_same : (f : ℕ → A) (i : ℕ) (a : A) → f i ≡ a → update f i a ≡ f
  update_same f i a e = fun_ext (update-both (λ j b. b ≡ f j) f i a (sym e) (λ j _. refl))
