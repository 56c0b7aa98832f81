-- ===== src/Db/Keys.antt =====
-- The keys that `next_key` gives (an `INTEGER PRIMARY KEY`).
use file_tag_system.Prelude.{ℕ, ◌≤◌, ◌<◌, List, [], ◌∷◌, inl, inr, arith, In}
use file_tag_system.Db.{max_key, next_key}

module _ {ℓ} {A : Type ℓ} (key : A → ℕ) where
  max_key-bound : (x : A) (xs : List A) → In x xs → key x ≤ max_key key xs
  unfolding max_key
  max_key-bound x [] h = elim h [ ]
  max_key-bound x (y ∷ xs) (inl e) = rw e (ground arith)
  max_key-bound x (y ∷ xs) (inr h) = ground (arith, max_key-bound x xs h)

  pub lt-next_key : (x : A) (xs : List A) → In x xs → key x < next_key key xs
  unfolding next_key
  lt-next_key x xs h = omega (arith, max_key-bound x xs h)
