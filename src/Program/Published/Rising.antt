-- ===== src/Program/Published/Rising.antt =====
-- The sort by position in src/main.cpp, on states that all have another position.
use formula_one_telemetry_si.Prelude.{
  ℕ, zero, suc, ◌+◌, ◌≤◌, ◌<◌, ◌≡◌, ◌≢◌, sym, some, List, [], ◌∷◌, All, if-both, arith, ap, ◌∙◌,
  length, get_or, get_elem?, ltb,
}
use formula_one_telemetry_si.Prelude.Forall.{All-get_or, All-get_elem?, All-mono}
use formula_one_telemetry_si.Types.{DriverState}
use formula_one_telemetry_si.Telemetry.Positions.Sort.{
  Found, insert, stable_sort, All-insert, All-stable_sort,
}

module _ {F : Type 0} where
  -- No two states with one position.
  abbrev pub Apart : List (DriverState F) → Type 0
  Apart [] = Unit
  Apart (s ∷ rest) = All (λ t. s.position ≢ t.position) rest × Apart rest

  abbrev pub Rising : List (DriverState F) → Type 0
  Rising [] = Unit
  Rising (s ∷ rest) = All (λ t. s.position < t.position) rest × Rising rest

  pub Apart-get_or :
      (d : DriverState F) (xs : List (DriverState F))
      → ((i j : ℕ)
          → i < length xs
          → j < length xs
          → (get_or xs i d).position ≡ (get_or xs j d).position
          → i ≡ j)
      → Apart xs
  Apart-get_or d [] h = tt
  Apart-get_or d (x ∷ xs) h = (
    All-get_or (λ t. x.position ≢ t.position) d xs
        (λ i l same.
          let no : 0 ≡ suc i = h 0 (suc i) (omega arith) (omega arith) same in omega arith),
    Apart-get_or d xs (λ i j l m same.
        let one : suc i ≡ suc j = h (suc i) (suc j) (omega arith) (omega arith) same in
        omega arith),
  )

  insert-Rising :
      (x : DriverState F) (ys : List (DriverState F))
      → All (λ t. x.position ≢ t.position) ys
      → Rising ys
      → Rising (insert (λ a b. ltb a.position b.position) x ys)
  unfolding insert
  insert-Rising x [] a r = (tt, tt)
  insert-Rising x (y ∷ ys) a r =
      if-both Rising (ltb y.position x.position)
        (λ less. (
          All-insert (λ a b. ltb a.position b.position) (λ t. y.position < t.position) x ys
              (ground arith) r.0,
          insert-Rising x ys a.1 r.1,
        ))
        (λ more.
          let l : x.position < y.position = ground (arith, a.0) in
          ((l, All-mono _ _ ys (λ t m. omega (arith, l, m)) r.0), r))

  pub stable_sort-Rising :
      (xs : List (DriverState F))
      → Apart xs
      → Rising (stable_sort (λ a b. ltb a.position b.position) xs)
  unfolding stable_sort
  stable_sort-Rising [] a = tt
  stable_sort-Rising (x ∷ xs) a =
      insert-Rising x _
        (All-stable_sort (λ a b. ltb a.position b.position) (λ t. x.position ≢ t.position) xs a.0)
        (stable_sort-Rising xs a.1)

  -- Every position above `m`, up to as many as there are states, is that of a state.
  abbrev pub Covers : ℕ → List (DriverState F) → Type 0
  Covers m xs =
      (v : ℕ) → m < v → v ≤ m + length xs → (t : DriverState F) × Found t xs × (t.position ≡ v)

  module _ (m : ℕ) (x : DriverState F) (xs : List (DriverState F)) (rising : Rising (x ∷ xs))
      (above : m < x.position) where
    lowest :
        (t : DriverState F) (j : ℕ)
        → get_elem? (x ∷ xs) j ≡ some t
        → t.position ≡ suc m
        → x.position ≡ suc m
    lowest t zero e same =
        let first : x ≡ t = cc in ap (λ (u : DriverState F). u.position) first ∙ same
    lowest t (suc j) e same =
        let l = All-get_elem? (λ u. x.position < u.position) xs j t rising.0 e in
        omega (arith, l, same, above)

    behind :
        (t : DriverState F) (j : ℕ)
        → get_elem? (x ∷ xs) j ≡ some t
        → x.position < t.position
        → Found t xs
    behind t zero e l =
        let first : x ≡ t = cc in
        let same = ap (λ (u : DriverState F). u.position) first in absurd (omega (arith, same, l))
    behind t (suc j) e l = (j, e)

    Covers-first : Covers m (x ∷ xs) → (x.position ≡ suc m) × Covers (suc m) xs
    Covers-first covers =
        let (t, (j, at), same) = covers (suc m) (omega arith) (omega arith) in
        let first = lowest t j at same in
        (
          first,
          λ v l h.
              let (u, (k, here), is) = covers v (omega arith) (omega arith) in
              (u, behind u k here (omega (arith, is, l, first)), is),
        )

  -- Rising states that have all the positions from `m + 1` on have them in order.
  pub Rising-get_elem? :
      (m : ℕ) (xs : List (DriverState F)) (k : ℕ) (s : DriverState F)
      → Rising xs
      → All (λ t. m < t.position) xs
      → Covers m xs
      → get_elem? xs k ≡ some s
      → s.position ≡ suc (m + k)
  Rising-get_elem? m [] k s r a covers e = cc
  Rising-get_elem? m (x ∷ xs) zero s r a covers e =
      let first : x ≡ s = cc in
      sym (ap (λ (u : DriverState F). u.position) first)
      ∙ (Covers-first m x xs r a.0 covers).0
      ∙ omega arith
  Rising-get_elem? m (x ∷ xs) (suc k) s r a covers e =
      let (first, rest) = Covers-first m x xs r a.0 covers in
      Rising-get_elem? (suc m) xs k s r.1 (All-mono _ _ xs (λ t l. omega (arith, l, first)) r.0)
        rest e
      ∙ omega arith
