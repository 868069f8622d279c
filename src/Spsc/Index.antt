-- ===== src/Spsc/Index.antt =====
-- The index arithmetic of the ring: the mask is a remainder, and which indices coincide.
use native.Mathlib.Nat.{
  mod-eq_of_lt, div-add-mod, mod-add-mod, mul-le-mul_left, mod-lt, add-mod_right,
}
use formula_one_telemetry_si.Prelude.{
  ℕ, ◌+◌, ◌-◌, ◌/◌, ◌%◌, ◌^◌, ◌≤◌, ◌<◌, ◌≡◌, bit_and, arith, dec_lt, ap, sym, ◌∙◌, ◌≢◌,
}
use formula_one_telemetry_si.Prelude.Bits.{bit_and-mask, pow_two_of_bit_and}
use formula_one_telemetry_si.Spsc.{IsCapacity, next}

module _ {capacity : ℕ} (valid : IsCapacity capacity) where
  -- For every capacity that the assertions let through, the mask takes the remainder.
  pub mask-eq-mod : (x : ℕ) → bit_and x (capacity - 1) ≡ x % capacity
  mask-eq-mod x =
      let (k, e) =
        pow_two_of_bit_and capacity (omega (arith, valid.at_least_two)) valid.power_of_two in
      rw e (bit_and-mask k x)

  -- For a valid capacity, from an index of the buffer, `next` is the next index modulo the capacity:
  -- the mask is that remainder, and the addition does not wrap.
  pub next-eq-mod : (i : ℕ) → i < capacity → next capacity i ≡ (i + 1) % capacity
  unfolding next
  next-eq-mod i h =
      rw (mod-eq_of_lt {n = i + 1} {m = 2 ^ 64} (omega (arith, valid.fits))) (mask-eq-mod (i + 1))

-- Two counts less than a turn apart that fall on one index are the same count.
pub mod_injective : (c a b : ℕ) → a ≤ b → b < a + c → a % c ≡ b % c → a ≡ b
mod_injective c a b h k e = elim (dec_lt (a / c) (b / c)) [
  | yes apart ↦ absurd (
      omega (
        arith,
        div-add-mod a c,
        div-add-mod b c,
        mul-le-mul_left {m = a / c + 1} {n = b / c} c (omega arith),
      ))
  | no same ↦ omega (
    arith,
    div-add-mod a c,
    div-add-mod b c,
    mul-le-mul_left {m = b / c} {n = a / c} c (omega arith),
  )
]

-- The index after that of the count `a` is the index of `a + 1`.
pub mod-add-one : (c a : ℕ) → (a % c + 1) % c ≡ (a + 1) % c
mod-add-one c a = mod-add-mod a c 1

module _ {capacity : ℕ} (valid : IsCapacity capacity) where
  -- `next` of the index of a count is the index of the next count.
  pub next_at : (i n : ℕ) → i ≡ n % capacity → next capacity i ≡ (n + 1) % capacity
  next_at i n e =
      let below : n % capacity < capacity = mod-lt n (omega (arith, valid.at_least_two)) in
      next-eq-mod valid i (omega arith)
      ∙ ap (λ (k : ℕ). (k + 1) % capacity) e
      ∙ mod-add-one capacity n

-- The producer's test of the next tail `(p + 1) % c` against the index of a head `h`.
pub full_test : (c p h : ℕ) → h ≤ p → p < h + c → (p + 1) % c ≡ h % c → p + 1 ≡ h + c
full_test c p h l r e = elim (dec_lt (p + 1) (h + c)) [
  | yes room ↦ absurd (omega (arith, mod_injective c h (p + 1) (omega arith) room (sym e)))
  | no full ↦ omega arith
]

pub room_test : (c p h : ℕ) → p < h + c → (p + 1) % c ≢ h % c → p + 1 < h + c
room_test c p h r ne = elim (dec_lt (p + 1) (h + c)) [
  | yes room ↦ room
  | no full ↦
      let turn : p + 1 ≡ h + c = omega arith in
      absurd (ne (ap (λ (k : ℕ). k % c) turn ∙ add-mod_right h c))
]

-- The consumer's test of two indices against each other.
pub count_test : (c a b : ℕ) → a ≤ b → a % c ≢ b % c → a < b
count_test c a b l ne = elim (dec_lt a b) [
  | yes less ↦ less
  | no more ↦ let same : a ≡ b = omega arith in absurd (ne (ap (λ (k : ℕ). k % c) same))
]

-- A slot of an item that waits is not the one that the producer writes.
pub slot_ne : (c p i : ℕ) → i < p → p < i + c → i % c ≢ p % c
slot_ne c p i l r e = omega (arith, mod_injective c i p (omega arith) r e)
