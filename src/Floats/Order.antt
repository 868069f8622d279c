-- ===== src/Floats/Order.antt =====
-- The strict order that follows from the laws of the interface.
use formula_one_telemetry_si.Prelude.{◌≡◌, refl, true, false, arith, All, List, [], ◌∷◌}
use formula_one_telemetry_si.Floats.{Floats, IsOrdered}

module _ {F : Type 0} ⦃f : Floats F⦄ (laws : IsOrdered F) where
  pub lt_irrefl : (a : F) → f.lt a a ≡ false
  lt_irrefl a = ground (arith, laws.lt_iff a a)

  pub lt_asymm : (a b : F) → f.lt a b ≡ true → f.lt b a ≡ false
  lt_asymm a b h = ground (arith, laws.lt_iff a b, laws.lt_iff b a)

  pub lt_trans : (a b c : F) → f.lt a b ≡ true → f.lt b c ≡ true → f.lt a c ≡ true
  lt_trans a b c h k = ground (
    arith,
    laws.lt_iff a b,
    laws.lt_iff b c,
    laws.lt_iff a c,
    laws.le_trans a b c,
    laws.le_trans c a b,
  )

  -- What is not below a value is not below a smaller one.
  pub not-lt_of_lt : (t a b : F) → f.lt t b ≡ false → f.lt a b ≡ true → f.lt t a ≡ false
  not-lt_of_lt t a b h k = ground (arith, lt_trans t a b)

  pub same_bits_self : (a : F) → f.same_bits a a ≡ true
  same_bits_self a = (laws.same_iff a a).1 refl

  pub All-not-lt :
      (ts : List F) (a b : F)
      → f.lt a b ≡ true
      → All (λ t. f.lt t b ≡ false) ts
      → All (λ t. f.lt t a ≡ false) ts
  All-not-lt [] a b h k = tt
  All-not-lt (t ∷ ts) a b h k = (not-lt_of_lt t a b k.0 h, All-not-lt ts a b h k.1)
