-- ===== src/Prelude/Forall.antt =====
-- Predicates of all elements of a list.
use formula_one_telemetry_si.Prelude.{
  ℕ, zero, suc, ◌<◌, ◌≡◌, some, List, [], ◌∷◌, All, arith, length, get_or, get_elem?,
}
use mathlib.Core.Path.{subst}

-- What holds at every index holds of all elements.
pub All-get_or {ℓ κ} :
    {A : Type ℓ} (P : A → Type κ) (d : A) (xs : List A)
    → ((i : ℕ) → i < length xs → P (get_or xs i d))
    → All P xs
All-get_or P d [] h = tt
All-get_or P d (x ∷ xs) h = (h 0 (omega arith), All-get_or P d xs (λ i l. h (suc i) (omega arith)))

pub All-get_elem? {ℓ κ} :
    {A : Type ℓ} (P : A → Type κ) (xs : List A) (k : ℕ) (x : A)
    → All P xs
    → get_elem? xs k ≡ some x
    → P x
All-get_elem? P [] k x a e = cc
All-get_elem? P (y ∷ xs) zero x a e = let same : y ≡ x = cc in subst P same a.0
All-get_elem? P (y ∷ xs) (suc k) x a e = All-get_elem? P xs k x a.1 e

pub All-mono {ℓ κ} :
    {A : Type ℓ} (P Q : A → Type κ) (xs : List A) → ((x : A) → P x → Q x) → All P xs → All Q xs
All-mono P Q [] h a = tt
All-mono P Q (x ∷ xs) h a = (h x a.0, All-mono P Q xs h a.1)
