-- ===== src/Text/Order.antt =====
-- SQLite's `ORDER BY` on a column of TEXT: the binary collation, which on UTF-8 is the order of the
-- characters. Rows with equal texts stay in the order of the table.
use file_tag_system.Prelude.{
  List, [], ◌∷◌, Bool, Bool-cases, true, false, ◌&&◌, ◌||◌, ◌==◌, ltb, if◌then◌else◌, In, ◌≡◌, ◌↔◌,
  ◌⊎◌, inl, inr,
}
use file_tag_system.Text.{Text}

unfoldable pub text_lt : Text → Text → Bool
text_lt s [] = false
text_lt [] (b ∷ t) = true
text_lt (a ∷ s) (b ∷ t) = ltb a b || (a == b && text_lt s t)

module _ {ℓ} {A : Type ℓ} (key : A → Text) where
  insert_by : A → List A → List A
  insert_by x [] = x ∷ []
  insert_by x (y ∷ ys) =
      let rest = insert_by x ys in if text_lt (key y) (key x) then y ∷ rest else x ∷ y ∷ ys

  unfoldable pub sort_by : List A → List A
  unfolding insert_by
  sort_by [] = []
  sort_by (x ∷ xs) = insert_by x (sort_by xs)

  In-insert_by : (x a : A) (xs : List A) → In a (insert_by x xs) ↔ ((a ≡ x) ⊎ In a xs)
  unfolding insert_by
  In-insert_by x a [] = (λ m. m, λ m. m)
  In-insert_by x a (y ∷ ys) = elim (Bool-cases (text_lt (key y) (key x))) [
    | inl t ↦
        let (there, back) = In-insert_by x a ys in
        rw t (
          (λ m. elim m [
            | inl e ↦ inr (inl e)
            | inr k ↦ elim (there k) [ inl e ↦ inl e | inr j ↦ inr (inr j) ]
          ]),
          λ m. elim m [
            | inl e ↦ inr (back (inl e))
            | inr k ↦ elim k [ inl e ↦ inl e | inr j ↦ inr (back (inr j)) ]
          ],
        )
    | inr n ↦ rw n (λ m. m, λ m. m)
  ]

  -- Sorting keeps the rows.
  pub In-sort_by : (xs : List A) (a : A) → In a (sort_by xs) ↔ In a xs
  unfolding sort_by
  In-sort_by [] a = (λ m. m, λ m. m)
  In-sort_by (x ∷ xs) a =
      let (there, back) = In-insert_by x a (sort_by xs) in
      let (down, up) = In-sort_by xs a in
      (
        (λ m. elim (there m) [ inl e ↦ inl e | inr k ↦ inr (down k) ]),
        λ m. elim m [ inl e ↦ back (inl e) | inr k ↦ back (inr (up k)) ],
      )
