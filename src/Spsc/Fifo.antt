-- ===== src/Spsc/Fifo.antt =====
-- The contract of the ring: a first-in first-out list of at most `bound` items.
use formula_one_telemetry_si.Prelude.{
  ℕ, Bool, true, false, Option, none, some, List, [], ◌∷◌, ◌++◌, if◌then◌else◌, ltb, length,
}

pub data Request {ℓ} (T : Type ℓ) : Type ℓ where
  enqueue : T → Request T
  dequeue : Request T

-- The returned flag, and what goes through `out`.
abbrev pub Reply {ℓ} : Type ℓ → Type ℓ
Reply T = Bool × Option T

module _ {ℓ} {T : Type ℓ} where
  unfoldable pub put : ℕ → List T → T → List T × Bool
  put bound xs x = if ltb (length xs) bound then (xs ++ x ∷ [], true) else (xs, false)

  unfoldable pub get : List T → List T × Bool × Option T
  get [] = ([], false, none)
  get (x ∷ xs) = (xs, true, some x)

  unfoldable pub replies : ℕ → List T → List (Request T) → List (Reply T)
  replies bound xs [] = []
  replies bound xs (enqueue x ∷ rs) =
      let (ys, done) = put bound xs x in (done, none) ∷ replies bound ys rs
  replies bound xs (dequeue ∷ rs) =
      let (ys, done, out) = get xs in (done, out) ∷ replies bound ys rs
