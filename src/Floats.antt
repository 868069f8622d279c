-- ===== src/Floats.antt =====
-- What the program uses of C++'s `float`, as an interface: literals, arithmetic and comparison.
-- The program's definitions are stated over any implementation of it, and the theorems that need an
-- order take the laws of IEEE 754 that they rest on. Fixed is an implementation that computes.
pub mod Fixed
pub mod Order
use formula_one_telemetry_si.Prelude.{ℕ, ◌≡◌, ◌↔◌, ◌⊎◌, Bool, true, false, not, ◌&&◌, if◌then◌else◌}
use formula_one_telemetry_si.Prelude.Int.{ℤ}

pub record Floats (F : Type 0) : Type 0 where
  pub ratio : ℕ → ℕ → F  -- a decimal literal: 0.85f is `ratio 85 100`
  pub of_ℕ : ℕ → F  -- an `int` that is not negative, converted
  pub largest : F  -- std::numeric_limits<float>::max()
  pub add : F → F → F
  pub sub : F → F → F
  pub mul : F → F → F
  pub div : F → F → F
  pub lt : F → F → Bool  -- `<`, false when an argument is NaN
  pub le : F → F → Bool  -- `<=`, likewise
  pub trunc : F → ℤ  -- static_cast<int>
  pub same_bits : F → F → Bool  -- how a compare-and-exchange compares

module _ {F : Type 0} ⦃f : Floats F⦄ where
  infixl 65 ◌+ᶠ◌ ◌-ᶠ◌
  infixl 70 ◌*ᶠ◌ ◌/ᶠ◌
  abbrev pub ◌+ᶠ◌ : F → F → F
  ◌+ᶠ◌ = f.add

  abbrev pub ◌-ᶠ◌ : F → F → F
  ◌-ᶠ◌ = f.sub

  abbrev pub ◌*ᶠ◌ : F → F → F
  ◌*ᶠ◌ = f.mul

  abbrev pub ◌/ᶠ◌ : F → F → F
  ◌/ᶠ◌ = f.div

  -- `std::min`, `std::max` and `std::clamp`, as the standard defines them by `<`.
  abbrev pub fmin : F → F → F
  fmin a b = if f.lt b a then b else a

  abbrev pub fmax : F → F → F
  fmax a b = if f.lt a b then b else a

  abbrev pub clamp : F → F → F → F
  clamp v lo hi = if f.lt v lo then lo else if f.lt hi v then hi else v

-- A NaN is the value that is not `<=` itself; on the others `<=` is a total preorder, and `<` is its
-- strict part.
pub record IsOrdered (F : Type 0) ⦃f : Floats F⦄ : Type 0 where
  pub le_refl_of_le : (a b : F) → f.le a b ≡ true → (f.le a a ≡ true) × (f.le b b ≡ true)
  pub le_trans : (a b c : F) → f.le a b ≡ true → f.le b c ≡ true → f.le a c ≡ true
  pub le_total :
      (a b : F) → f.le a a ≡ true → f.le b b ≡ true → (f.le a b ≡ true) ⊎ (f.le b a ≡ true)
  pub lt_iff : (a b : F) → (f.lt a b ≡ true) ↔ ((f.le a b ≡ true) × (f.le b a ≡ false))
  pub same_iff : (a b : F) → (f.same_bits a b ≡ true) ↔ (a ≡ b)
