-- ===== src/Mpsc/Nodes.antt =====
-- The heap of the queue's nodes: what stands at each address, `none` where nothing is allocated.
use formula_one_telemetry_si.Prelude.{
  ℕ, ◌≡◌, ◌≢◌, ◌⊎◌, inl, inr, refl, sym, ap, ◌∙◌, false, Option, none, some, List, [], ◌∷◌, ◌==◌,
  ==_iff, if◌then◌else◌, Bool-cases, arith,
}

-- `Node`; `next` is `none` for a null pointer.
pub record Node (T : Type 0) : Type 0 where
  pub value : T
  pub next : Option ℕ

-- The writes so far, the newest first; a `none` gives an address back.
abbrev pub Memory : Type 0 → Type 0
Memory T = List (ℕ × Option (Node T))

module _ {T : Type 0} where
  unfoldable pub lookup : Memory T → ℕ → Option (Node T)
  lookup [] b = none
  lookup ((a, c) ∷ m) b = if a == b then c else lookup m b

  abbrev pub write : Memory T → ℕ → Option (Node T) → Memory T
  write m a c = (a, c) ∷ m

  pub lookup-write :
      (m : Memory T) (a b : ℕ) (c : Option (Node T))
      → lookup (write m a c) b ≡ (if a == b then c else lookup m b)
  unfolding lookup
  lookup-write m a b c = refl

  pub lookup-write_self : (m : Memory T) (a : ℕ) (c : Option (Node T)) → lookup (write m a c) a ≡ c
  unfolding lookup
  lookup-write_self m a c = let same = (==_iff a a).1 refl in rw same refl

  pub lookup-write_ne :
      (m : Memory T) (a b : ℕ) (c : Option (Node T)) → a ≢ b → lookup (write m a c) b ≡ lookup m b
  unfolding lookup
  lookup-write_ne m a b c ne = let apart : (a == b) ≡ false = ground arith in rw apart refl

  -- Which write a lookup sees.
  pub lookup-write_eq :
      (m : Memory T) (a b : ℕ) (c o : Option (Node T))
      → lookup (write m a c) b ≡ o
      → ((a ≡ b) × (c ≡ o)) ⊎ ((a ≢ b) × (lookup m b ≡ o))
  unfolding lookup
  lookup-write_eq m a b c o = elim (Bool-cases (a == b)) [
    | inl here ↦ rw here (λ e. inl ((==_iff a b).0 here, e))
    | inr there ↦ rw there (λ e. inr ((λ s. ground (arith, ==_iff a b)), e))
  ]

  -- An address that holds nothing is not one that holds a node.
  pub free-ne :
      (m : Memory T) (a b : ℕ) (node : Node T) → lookup m a ≡ none → lookup m b ≡ some node → a ≢ b
  free-ne m a b node free used same = let both = sym free ∙ ap (lookup m) same ∙ used in cc
