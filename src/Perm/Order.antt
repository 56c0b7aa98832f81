-- ===== src/Perm/Order.antt =====
-- `specificity` as an order on rows, and the sort by it (server/internal/perm/perm.go).
use file_tag_system.Prelude.{
  suc, List, [], ◌∷◌, true, false, ◌≡◌, inl, inr, refl, arith, length, In, Bool-cases,
}
use file_tag_system.Perm.{Row, more_specific, same_level, insert, slice_stable}

pub more_specific_refl : (r : Row) → more_specific r r ≡ false
unfolding more_specific
more_specific_refl r = ground arith

pub more_specific_total : (r s : Row) → more_specific r s ≡ true → more_specific s r ≡ false
unfolding more_specific
more_specific_total r s h = ground arith

-- Read `more_specific s r ≡ false` as "`s` is at most as specific as `r`".
pub at_most_trans :
    (t s r : Row)
    → more_specific t s ≡ false
    → more_specific s r ≡ false
    → more_specific t r ≡ false
unfolding more_specific
at_most_trans t s r h k = ground arith

pub same_level-at_most :
    (r s : Row) → same_level r s ≡ true → (more_specific r s ≡ false) × (more_specific s r ≡ false)
unfolding same_level more_specific
same_level-at_most r s h = (ground arith, ground arith)

pub same_level-of_at_most :
    (r s : Row) → more_specific r s ≡ false → more_specific s r ≡ false → same_level r s ≡ true
unfolding same_level more_specific
same_level-of_at_most r s h k = ground arith

abbrev pub IsTop : Row → List Row → Type 0
IsTop r rows = (s : Row) → In s rows → more_specific s r ≡ false

abbrev pub Descending : List Row → Type 0
Descending [] = Unit
Descending (r ∷ rows) = IsTop r rows × Descending rows

In-insert : (x r : Row) (rows : List Row) → In x (insert r rows) → In x (r ∷ rows)
unfolding insert
In-insert x r [] h = h
In-insert x r (s ∷ rows) h = elim (Bool-cases (more_specific s r)) [
  | inl y ↦ elim (rw y at h) [
    | inl e ↦ inr (inl e)
    | inr k ↦ elim (In-insert x r rows k) [ inl e ↦ inl e | inr m ↦ inr (inr m) ]
  ]
  | inr n ↦ rw n at h
]

insert-In : (x r : Row) (rows : List Row) → In x (r ∷ rows) → In x (insert r rows)
unfolding insert
insert-In x r [] h = h
insert-In x r (s ∷ rows) h = elim (Bool-cases (more_specific s r)) [
  | inl y ↦ rw y (elim h [
    | inl e ↦ inr (insert-In x r rows (inl e))
    | inr (inl e) ↦ inl e
    | inr (inr m) ↦ inr (insert-In x r rows (inr m))
  ])
  | inr n ↦ rw n h
]

insert-Descending : (r : Row) (rows : List Row) → Descending rows → Descending (insert r rows)
unfolding insert
insert-Descending r [] h = (λ s m. elim m [ ], tt)
insert-Descending r (s ∷ rows) (top, rest) = elim (Bool-cases (more_specific s r)) [
  | inl y ↦ rw y (
    (λ x m. elim (In-insert x r rows m) [
      | inl e ↦ rw e (more_specific_total s r y)
      | inr k ↦ top x k
    ]),
    insert-Descending r rows rest,
  )
  | inr n ↦
      rw n
        ((λ x m. elim m [ inl e ↦ rw e n | inr k ↦ at_most_trans x s r (top x k) n ]), (top, rest))
]

length-insert : (r : Row) (rows : List Row) → length (insert r rows) ≡ suc (length rows)
unfolding insert
length-insert r [] = refl
length-insert r (s ∷ rows) = ground (arith, length-insert r rows)

pub slice_stable-Descending : (rows : List Row) → Descending (slice_stable rows)
unfolding slice_stable
slice_stable-Descending [] = tt
slice_stable-Descending (r ∷ rows) =
    insert-Descending r (slice_stable rows) (slice_stable-Descending rows)

pub In-slice_stable : (x : Row) (rows : List Row) → In x (slice_stable rows) → In x rows
unfolding slice_stable
In-slice_stable x [] h = h
In-slice_stable x (r ∷ rows) h = elim (In-insert x r (slice_stable rows) h) [
  | inl e ↦ inl e
  | inr m ↦ inr (In-slice_stable x rows m)
]

pub slice_stable-In : (x : Row) (rows : List Row) → In x rows → In x (slice_stable rows)
unfolding slice_stable
slice_stable-In x [] h = h
slice_stable-In x (r ∷ rows) (inl e) = insert-In x r (slice_stable rows) (inl e)
slice_stable-In x (r ∷ rows) (inr m) =
    insert-In x r (slice_stable rows) (inr (slice_stable-In x rows m))

pub length-slice_stable : (rows : List Row) → length (slice_stable rows) ≡ length rows
unfolding slice_stable
length-slice_stable [] = refl
length-slice_stable (r ∷ rows) =
    omega (arith, length-insert r (slice_stable rows), length-slice_stable rows)
