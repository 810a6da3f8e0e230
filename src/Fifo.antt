-- ===== src/Fifo.antt =====
-- A first-in first-out queue of bounded length, oldest first: what a ring buffer promises.
use ether_recorder_suite.Prelude.{
  ℕ, Bool, true, false, Option, none, some, List, [], ◌∷◌, ◌++◌, ltb, length, if◌then◌else◌,
}

module _ {ℓ} {A : Type ℓ} where
  -- A push reports whether there was room.
  unfoldable pub push : ℕ → List A → A → Bool × List A
  push cap q x = if ltb (length q) cap then (true, q ++ (x ∷ [])) else (false, q)

  unfoldable pub pop : List A → Option A × List A
  pop [] = (none, [])
  pop (x ∷ q) = (some x, q)
