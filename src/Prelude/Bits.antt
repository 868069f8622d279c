-- ===== src/Prelude/Bits.antt =====
-- Masks of low bits: `x & (2^k - 1)` is a remainder, and `c & (c - 1)` is 0 at powers of two only.
use Prim.Native.Nat.{digits, bit_and-bitwise}
use native.Mathlib.Nat.{pow-suc}
use formula_one_telemetry_si.Prelude.{
  ℕ, zero, suc, ◌+◌, ◌-◌, ◌*◌, ◌/◌, ◌%◌, ◌^◌, ◌≤◌, min, bit_and, ◌≡◌, refl, arith, ap, ℕ_discrete,
}

-- What `bit_and` stands for, with its fuel `n`: one round for each digit of `a`.
abbrev conj : ℕ → ℕ → ℕ → ℕ
conj = digits (λ _. zero) min

-- Any fuel that is not below `a` gives the same digits.
conj-fuel : (n m : ℕ) (a b : ℕ) → a ≤ n → a ≤ m → conj n a b ≡ conj m a b
conj-fuel zero zero a b p q = refl
conj-fuel zero (suc m) zero b p q = refl
conj-fuel (suc n) zero zero b p q = refl
conj-fuel (suc n) (suc m) zero b p q = refl
conj-fuel zero (suc m) (suc a) b p q = absurd (omega arith)
conj-fuel (suc n) zero (suc a) b p q = absurd (omega arith)
conj-fuel (suc n) (suc m) (suc a) b p q =
    omega (arith, conj-fuel n m (suc a / 2) (b / 2) (omega arith) (omega arith))

bit_and-zero_left : (b : ℕ) → bit_and 0 b ≡ 0
bit_and-zero_left b = bit_and-bitwise 0 b

-- `&` digit by digit, from the lowest.
pub bit_and_lem : (a b : ℕ) → bit_and a b ≡ bit_and (a / 2) (b / 2) * 2 + min (a % 2) (b % 2)
bit_and_lem zero b = omega (arith, bit_and-zero_left b, bit_and-zero_left (b / 2))
bit_and_lem (suc a) b =
    let half = suc a / 2 in
    omega (
      arith,
      bit_and-bitwise (suc a) b,
      bit_and-bitwise half (b / 2),
      conj-fuel a half half (b / 2) (omega arith) (omega arith),
    )

bit_and-zero_below : (n a : ℕ) → a ≤ n → bit_and a 0 ≡ 0
bit_and-zero_below n zero h = refl
bit_and-zero_below zero (suc a) h = absurd (omega arith)
bit_and-zero_below (suc n) (suc a) h =
    omega (arith, bit_and_lem (suc a) 0, bit_and-zero_below n (suc a / 2) (omega arith))

pub pow-pos : (k : ℕ) → 1 ≤ 2 ^ k
pow-pos zero = omega arith
pow-pos (suc k) = omega (arith, pow-suc 2 k, pow-pos k)

half-mod : (a m : ℕ) → 1 ≤ m → a % (m * 2) ≡ (a / 2 % m) * 2 + a % 2
half-mod a m h = grind arith

-- The mask `m - 1` one digit further: its half is the mask of `m`, its last digit is 1.
mask-double : (a m : ℕ) → 1 ≤ m → bit_and a (m * 2 - 1) ≡ bit_and (a / 2) (m - 1) * 2 + a % 2
mask-double a m h =
    let half : (m * 2 - 1) / 2 ≡ m - 1 = omega arith in
    let last : (m * 2 - 1) % 2 ≡ 1 = omega arith in
    omega (
      arith,
      bit_and_lem a (m * 2 - 1),
      ap (λ (t : ℕ). bit_and (a / 2) t) half,
      ap (λ (t : ℕ). min (a % 2) t) last,
    )

-- The mask of `k` ones keeps the remainder by `2 ^ k`.
pub bit_and-mask : (k a : ℕ) → bit_and a (2 ^ k - 1) ≡ a % 2 ^ k
bit_and-mask zero a = omega (arith, bit_and-zero_below a a (omega arith))
bit_and-mask (suc k) a = rw (pow-suc 2 k) (
    omega (
      arith,
      mask-double a (2 ^ k) (pow-pos k),
      half-mod a (2 ^ k) (pow-pos k),
      bit_and-mask k (a / 2),
    ))

bit_and_self_below : (n a : ℕ) → a ≤ n → bit_and a a ≡ a
bit_and_self_below n zero h = refl
bit_and_self_below zero (suc a) h = absurd (omega arith)
bit_and_self_below (suc n) (suc a) h =
    omega (arith, bit_and_lem (suc a) (suc a), bit_and_self_below n (suc a / 2) (omega arith))

bit_and_self : (a : ℕ) → bit_and a a ≡ a
bit_and_self a = bit_and_self_below a a (omega arith)

-- `c & (c - 1)` at an odd and at an even number.
clear_odd : (c : ℕ) → c % 2 ≡ 1 → bit_and c (c - 1) ≡ c - 1
clear_odd c h =
    let half : (c - 1) / 2 ≡ c / 2 = omega arith in
    let last : (c - 1) % 2 ≡ 0 = omega arith in
    omega (
      arith,
      bit_and_lem c (c - 1),
      ap (λ (t : ℕ). bit_and (c / 2) t) half,
      bit_and_self (c / 2),
      ap (λ (t : ℕ). min (c % 2) t) last,
    )

clear_even : (c : ℕ) → 1 ≤ c → c % 2 ≡ 0 → bit_and c (c - 1) ≡ bit_and (c / 2) (c / 2 - 1) * 2
clear_even c p h =
    let twice : c - 1 ≡ c / 2 * 2 - 1 = omega arith in
    omega (arith, ap (λ (t : ℕ). bit_and c t) twice, mask-double c (c / 2) (omega arith))

pow_two_below : (n c : ℕ) → c ≤ n → 1 ≤ c → bit_and c (c - 1) ≡ 0 → (k : ℕ) × (c ≡ 2 ^ k)
pow_two_below zero c h p e = absurd (omega arith)
pow_two_below (suc n) c h p e = elim (ℕ_discrete (c % 2) 0) [
  | yes even ↦
      let (k, q) =
        pow_two_below n (c / 2) (omega arith) (omega arith) (omega (arith, clear_even c p even)) in
      (suc k, omega (arith, pow-suc 2 k))
  | no odd ↦ (0, omega (arith, clear_odd c (omega arith)))
]

-- A number whose lowest one, once cleared, leaves 0 is a power of 2.
pub pow_two_of_bit_and : (c : ℕ) → 1 ≤ c → bit_and c (c - 1) ≡ 0 → (k : ℕ) × (c ≡ 2 ^ k)
pow_two_of_bit_and c = pow_two_below c c (omega arith)
