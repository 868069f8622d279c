-- ===== src/Telemetry/Positions/Sort.antt =====
-- `std::iota` and `std::stable_sort`, as the program uses them: the sort is by insertion.
use formula_one_telemetry_si.Prelude.{
  ℕ, zero, suc, ◌+◌, ◌≤◌, ◌<◌, ◌≡◌, ◌≢◌, refl, Bool, true, false, List, [], ◌∷◌, if◌then◌else◌, All,
  if-both, arith, ap, ◌∙◌, sym, length, get_elem?, some,
}

-- The numbers from `k`, `n` of them.
abbrev pub iota : ℕ → ℕ → List ℕ
iota k zero = []
iota k (suc n) = k ∷ iota (suc k) n

module _ {A : Type 0} (before : A → A → Bool) where
  -- `x` before the first element that does not come before it.
  unfoldable pub insert : A → List A → List A
  insert x [] = x ∷ []
  insert x (y ∷ ys) = if before y x then y ∷ insert x ys else x ∷ y ∷ ys

  unfoldable pub stable_sort : List A → List A
  stable_sort [] = []
  stable_sort (x ∷ xs) = insert x (stable_sort xs)

-- No element twice.
abbrev pub Distinct : List ℕ → Type 0
Distinct [] = Unit
Distinct (x ∷ xs) = All (λ y. x ≢ y) xs × Distinct xs

pub All-iota : {P : ℕ → Type 0} (k n : ℕ) → ((i : ℕ) → k ≤ i → i < k + n → P i) → All P (iota k n)
All-iota k zero h = tt
All-iota k (suc n) h =
    (h k (omega arith) (omega arith), All-iota (suc k) n (λ i l r. h i (omega arith) (omega arith)))

pub iota-Distinct : (k n : ℕ) → Distinct (iota k n)
iota-Distinct k zero = tt
iota-Distinct k (suc n) = (All-iota (suc k) n (λ i l r e. omega arith), iota-Distinct (suc k) n)

-- Where an element stands.
abbrev pub Found : {A : Type 0} → A → List A → Type 0
Found x xs = (k : ℕ) × (get_elem? xs k ≡ some x)

pub iota-Found : (k n i : ℕ) → i < n → Found (k + i) (iota k n)
iota-Found k zero i h = elim h [ ]
iota-Found k (suc n) zero h = (0, ground arith)
iota-Found k (suc n) (suc i) h =
    let (j, e) = iota-Found (suc k) n i (omega arith) in (suc j, ground arith)

pub length-iota : (k n : ℕ) → length (iota k n) ≡ n
length-iota k zero = refl
length-iota k (suc n) = ap suc (length-iota (suc k) n)

module _ {A : Type 0} (before : A → A → Bool) where
  pub length-insert : (x : A) (ys : List A) → length (insert before x ys) ≡ suc (length ys)
  unfolding insert
  length-insert x [] = refl
  length-insert x (y ∷ ys) = ground (arith, length-insert x ys)

  pub length-stable_sort : (xs : List A) → length (stable_sort before xs) ≡ length xs
  unfolding stable_sort
  length-stable_sort [] = refl
  length-stable_sort (x ∷ xs) =
      length-insert x (stable_sort before xs) ∙ ap suc (length-stable_sort xs)

  pub All-insert :
      (P : A → Type 0) (x : A) (ys : List A) → P x → All P ys → All P (insert before x ys)
  unfolding insert
  All-insert P x [] h a = (h, tt)
  All-insert P x (y ∷ ys) h a =
      if-both (All P) (before y x) (λ _. (a.0, All-insert P x ys h a.1)) (λ _. (h, a))

  pub All-stable_sort : (P : A → Type 0) (xs : List A) → All P xs → All P (stable_sort before xs)
  unfolding stable_sort
  All-stable_sort P [] a = tt
  All-stable_sort P (x ∷ xs) a = All-insert P x _ a.0 (All-stable_sort P xs a.1)

  insert-Found_self : (x : A) (ys : List A) → Found x (insert before x ys)
  unfolding insert
  insert-Found_self x [] = (0, refl)
  insert-Found_self x (y ∷ ys) =
      let (k, e) = insert-Found_self x ys in
      if-both (Found x) (before y x) (λ _. (suc k, e)) (λ _. (0, refl))

  insert-Found : (z x : A) (ys : List A) → Found z ys → Found z (insert before x ys)
  unfolding insert
  insert-Found z x [] (k, e) = cc
  insert-Found z x (y ∷ ys) (zero, e) = if-both (Found z) (before y x) (λ _. (0, e)) (λ _. (1, e))
  insert-Found z x (y ∷ ys) (suc k, e) =
      let (j, e') = insert-Found z x ys (k, e) in
      if-both (Found z) (before y x) (λ _. (suc j, e')) (λ _. (suc (suc k), e))

  pub stable_sort-Found : (z : A) (xs : List A) → Found z xs → Found z (stable_sort before xs)
  unfolding stable_sort
  stable_sort-Found z [] (k, e) = cc
  stable_sort-Found z (x ∷ xs) (zero, e) =
      let (k, found) = insert-Found_self x (stable_sort before xs) in (k, found ∙ e)
  stable_sort-Found z (x ∷ xs) (suc k, e) = insert-Found z x _ (stable_sort-Found z xs (k, e))

  -- The first of the list does not come before `x`.
  abbrev Starts : A → List A → Type 0
  Starts x [] = Unit
  Starts x (y ∷ ys) = before y x ≡ false

  -- No element comes before its neighbour on the left.
  abbrev pub Sorted : List A → Type 0
  Sorted [] = Unit
  Sorted (x ∷ xs) = Starts x xs × Sorted xs

  pub Sorted-get_elem? :
      (xs : List A) (k : ℕ) (a b : A)
      → Sorted xs
      → get_elem? xs k ≡ some a
      → get_elem? xs (suc k) ≡ some b
      → before b a ≡ false
  Sorted-get_elem? [] k a b s e e' = cc
  Sorted-get_elem? (x ∷ []) zero a b s e e' = cc
  Sorted-get_elem? (x ∷ y ∷ xs) zero a b s e e' = ground (arith, s.0)
  Sorted-get_elem? (x ∷ xs) (suc k) a b s e e' = Sorted-get_elem? xs k a b s.1 e e'

  module _ (asym : (a b : A) → before a b ≡ true → before b a ≡ false) where
    insert-Starts :
        (y x : A) (ys : List A) → before x y ≡ false → Starts y ys → Starts y (insert before x ys)
    unfolding insert
    insert-Starts y x [] h s = h
    insert-Starts y x (z ∷ ys) h s = if-both (Starts y) (before z x) (λ _. s) (λ _. h)

    insert-Sorted : (x : A) (ys : List A) → Sorted ys → Sorted (insert before x ys)
    unfolding insert
    insert-Sorted x [] s = (tt, tt)
    insert-Sorted x (y ∷ ys) s =
        if-both Sorted (before y x)
          (λ less. (insert-Starts y x ys (asym y x less) s.0, insert-Sorted x ys s.1))
          (λ more. (more, s))

    pub stable_sort-Sorted : (xs : List A) → Sorted (stable_sort before xs)
    unfolding stable_sort
    stable_sort-Sorted [] = tt
    stable_sort-Sorted (x ∷ xs) = insert-Sorted x _ (stable_sort-Sorted xs)

module _ (before : ℕ → ℕ → Bool) where
  insert-Distinct :
      (x : ℕ) (ys : List ℕ) → All (λ y. x ≢ y) ys → Distinct ys → Distinct (insert before x ys)
  unfolding insert
  insert-Distinct x [] a d = (tt, tt)
  insert-Distinct x (y ∷ ys) a d =
      if-both Distinct (before y x)
        (λ _. (
          All-insert before (λ z. y ≢ z) x ys (λ e. a.0 (sym e)) d.0,
          insert-Distinct x ys a.1 d.1,
        ))
        (λ _. (a, d))

  pub stable_sort-Distinct : (xs : List ℕ) → Distinct xs → Distinct (stable_sort before xs)
  unfolding stable_sort
  stable_sort-Distinct [] d = tt
  stable_sort-Distinct (x ∷ xs) d =
      insert-Distinct x _ (All-stable_sort before (λ y. x ≢ y) xs d.0) (stable_sort-Distinct xs d.1)
