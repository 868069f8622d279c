-- ===== src/Prelude/Text.antt =====
-- Texts as lists of byte values: `std::string`, and a `char` array with its terminating 0.
use Prim.Native.Char.{code}
use Prim.Native.String.{String}
use formula_one_telemetry_si.Prelude.Int.{ℤ, pos, negsuc}
use formula_one_telemetry_si.Prelude.{
  ℕ, zero, suc, ◌+◌, ◌/◌, ◌%◌, ltb, ◌≡◌, ◌↔◌, ◌≢◌, refl, Bool, true, false, ◌&&◌, List, [], ◌∷◌,
  ◌++◌, ◌==◌, if◌then◌else◌, take, drop, arith, All,
}

abbrev pub Text : Type 0
Text = List ℕ

-- The bytes of a literal, all of them ASCII in the source.
abbrev pub codes : String → Text
codes String.[] = []
codes (String.◌∷◌ c s) = code c ∷ codes s

unfoldable pub text_eq : Text → Text → Bool
text_eq [] [] = true
text_eq (a ∷ s) (b ∷ t) = (a == b) && text_eq s t
text_eq _ _ = false

-- `memcpy(dst, src, n)` into an array, for a source of `n` bytes at least.
abbrev pub memcpy : ℕ → Text → Text → Text
memcpy n src dst = take n src ++ drop n dst

-- What `std::string` or `std::string_view` makes of a `char` array: the bytes before the first 0.
unfoldable pub until_nul : Text → Text
until_nul [] = []
until_nul (c ∷ cs) = if c == 0 then [] else c ∷ until_nul cs

-- `std::to_string` of an `int`. The fuel of `digits` is above the number, which is enough.
abbrev digits : ℕ → ℕ → Text
digits zero n = []
digits (suc fuel) n =
    let rest = digits fuel (n / 10) in
    if ltb n 10 then (48 + n) ∷ [] else rest ++ (48 + n % 10) ∷ []

abbrev pub to_string : ℤ → Text
to_string (pos n) = digits (suc n) n
to_string (negsuc n) = 45 ∷ digits (suc (suc n)) (suc n)

pub text_eq_iff : (s t : Text) → (text_eq s t ≡ true) ↔ (s ≡ t)
unfolding text_eq
text_eq_iff [] [] = ((λ _. refl), λ _. refl)
text_eq_iff [] (b ∷ t) = ((λ h. cc), λ h. cc)
text_eq_iff (a ∷ s) [] = ((λ h. cc), λ h. cc)
text_eq_iff (a ∷ s) (b ∷ t) =
    (λ h. ground (arith, text_eq_iff s t), λ h. ground (arith, text_eq_iff s t))

pub text_eq_refl : (s : Text) → text_eq s s ≡ true
text_eq_refl s = (text_eq_iff s s).1 refl

pub text_eq_of_ne : (s t : Text) → s ≢ t → text_eq s t ≡ false
text_eq_of_ne s t ne = ground (arith, text_eq_iff s t)

-- A text with no 0 in it, stopped by a 0.
pub until_nul-append : (s t : Text) → All (λ c. c ≢ 0) s → until_nul (s ++ 0 ∷ t) ≡ s
unfolding until_nul
until_nul-append [] t h = refl
until_nul-append (c ∷ s) t h = ground (arith, until_nul-append s t h.1)
