-- ===== src/Floats/Fixed.antt =====
-- An implementation of the interface that computes: whole millionths, with `none` for NaN.
use formula_one_telemetry_si.Prelude.{
  ℕ, zero, ◌+◌, ◌*◌, ◌/◌, ◌^◌, Bool, true, false, Option, none, some, leb, ◌==◌, arith,
}
use formula_one_telemetry_si.Prelude.Int.{
  ℤ, pos, negsuc, ◌+ℤ◌, ◌-ℤ◌, ltb_ℤ, pos_part, neg_part, sub_ℕ,
}
use formula_one_telemetry_si.Floats.{Floats, IsOrdered}

abbrev pub Fixed : Type 0
Fixed = Option ℤ

abbrev unit : ℕ
unit = 1_000_000

abbrev lift : (ℤ → ℤ → ℤ) → Fixed → Fixed → Fixed
lift op (some a) (some b) = some (op a b)
lift op (some a) none = none
lift op none b = none

abbrev test : (ℤ → ℤ → Bool) → Fixed → Fixed → Bool
test op (some a) (some b) = op a b
test op (some a) none = false
test op none b = false

abbrev neg : ℤ → ℤ
neg a = sub_ℕ (neg_part a) (pos_part a)

abbrev abs : ℤ → ℕ
abs a = pos_part a + neg_part a

-- The sign of a product or a quotient.
abbrev signed : ℤ → ℤ → ℕ → ℤ
signed (pos _) (pos _) n = pos n
signed (negsuc _) (negsuc _) n = pos n
signed _ _ n = neg (pos n)

abbrev quotient : Fixed → Fixed → Fixed
quotient (some a) (some (pos zero)) = none
quotient (some a) (some b) = some (signed a b (abs a * unit / abs b))
quotient _ _ = none

abbrev whole : Fixed → ℤ
whole none = pos 0
whole (some a) = signed a (pos 0) (abs a / unit)

abbrev leb_ℤ : ℤ → ℤ → Bool
leb_ℤ a b = leb (pos_part a + neg_part b) (pos_part b + neg_part a)

abbrev eqb : Fixed → Fixed → Bool
eqb none none = true
eqb (some (pos a)) (some (pos b)) = a == b
eqb (some (negsuc a)) (some (negsuc b)) = a == b
eqb _ _ = false

instance abbrev pub fixed_floats : Floats Fixed
fixed_floats = record {
  ratio = λ n d. some (pos (n * unit / d));
  of_ℕ = λ n. some (pos (n * unit));
  largest = some (pos (10 ^ 40));
  add = lift ◌+ℤ◌;
  sub = lift ◌-ℤ◌;
  mul = lift λ a b. signed a b (abs a * abs b / unit);
  div = quotient;
  lt = test ltb_ℤ;
  le = test leb_ℤ;
  trunc = whole;
  same_bits = eqb;
}

pub Fixed-IsOrdered : IsOrdered Fixed
Fixed-IsOrdered = record {
  le_refl_of_le = λ a b h. ground arith;
  le_trans = λ a b c h k. ground arith;
  le_total = λ a b h k. ground arith;
  lt_iff = λ a b. ground arith;
  same_iff = λ a b. ground arith;
}
