-- ===== src/Perm/Walk.antt =====
-- The walk of `resolveAction` in server/internal/perm/perm.go over sorted rows, level by level.
pub mod Resolution
use file_tag_system.Prelude.{
  ℕ, zero, suc, ◌≤◌, List, [], ◌∷◌, Bool, true, false, ◌≡◌, ◌⊎◌, inl, inr, refl, arith, length, In,
  any, any-elim, any-false, any-true, Bool-cases, ◌&&◌, ◌||◌, not, if◌then◌else◌,
}
use file_tag_system.Models.{Action, has}
use file_tag_system.Perm.{
  Row, Decision, undecided, allow, deny, more_specific, same_level, scan_level, walk,
}
use file_tag_system.Perm.Order.{
  IsTop, Descending, at_most_trans, same_level-at_most, same_level-of_at_most, more_specific_refl,
}

-- What a decision on `a` by the rows means: nothing mentions `a`; or the most specific rows that
-- mention it have a deny among them; or they have none.
pub data Resolves (rows : List Row) (a : Action) : Decision → Type 0 where
  silent : ((r : Row) → In r rows → has r.grant a ≡ false) → Resolves rows a undecided
  denied :
      (r : Row)
      → In r rows
      → has r.grant a ≡ true
      → r.is_deny ≡ true
      → ((s : Row) → In s rows → has s.grant a ≡ true → more_specific s r ≡ false)
      → Resolves rows a deny
  granted :
      (r : Row)
      → In r rows
      → has r.grant a ≡ true
      → ((s : Row) → In s rows → has s.grant a ≡ true → more_specific s r ≡ false)
      → ((s : Row) → In s rows → has s.grant a ≡ true → same_level r s ≡ true → s.is_deny ≡ false)
      → Resolves rows a allow

-- The rows of the level of `r` at the front, and what stands behind them.
level : Row → List Row → List Row
level r [] = []
level r (s ∷ rows) = if same_level r s then s ∷ level r rows else []

beyond : Row → List Row → List Row
beyond r [] = []
beyond r (s ∷ rows) = if same_level r s then beyond r rows else s ∷ rows

abbrev grants : Action → Row → Bool
grants a s = has s.grant a && not s.is_deny

abbrev denies : Action → Row → Bool
denies a s = has s.grant a && s.is_deny

scan_level_lem :
    (a : Action) (r : Row) (rows : List Row) (g d : Bool)
    → scan_level a r rows g d
      ≡ (g || any (grants a) (level r rows), d || any (denies a) (level r rows), beyond r rows)
unfolding scan_level level beyond
scan_level_lem a r [] true true = refl
scan_level_lem a r [] true false = refl
scan_level_lem a r [] false true = refl
scan_level_lem a r [] false false = refl
scan_level_lem a r (s ∷ rows) g d = ground (
  arith,
  scan_level_lem a r rows (if has s.grant a && not s.is_deny then true else g)
      (if has s.grant a && s.is_deny then true else d),
)

In-level : (r x : Row) (rows : List Row) → In x (level r rows) → In x rows × (same_level r x ≡ true)
unfolding level
In-level r x [] h = elim h [ ]
In-level r x (s ∷ rows) h = elim (Bool-cases (same_level r s)) [
  | inl y ↦ elim (rw y at h) [
    | inl e ↦ (inl e, rw e y)
    | inr m ↦ let (i, l) = In-level r x rows m in (inr i, l)
  ]
  | inr n ↦ elim (rw n at h) [ ]
]

In-beyond : (r x : Row) (rows : List Row) → In x (beyond r rows) → In x rows
unfolding beyond
In-beyond r x [] h = h
In-beyond r x (s ∷ rows) h = elim (Bool-cases (same_level r s)) [
  | inl y ↦ inr (In-beyond r x rows (rw y at h))
  | inr n ↦ rw n at h
]

In-cases : (r x : Row) (rows : List Row) → In x rows → In x (level r rows) ⊎ In x (beyond r rows)
unfolding level beyond
In-cases r x [] h = elim h [ ]
In-cases r x (s ∷ rows) h = elim (Bool-cases (same_level r s)) [
  | inl y ↦ rw y (elim h [
    | inl e ↦ inl (inl e)
    | inr m ↦ elim (In-cases r x rows m) [ inl k ↦ inl (inr k) | inr k ↦ inr k ]
  ])
  | inr n ↦ rw n (inr h)
]

beyond-Descending : (r : Row) (rows : List Row) → Descending rows → Descending (beyond r rows)
unfolding beyond
beyond-Descending r [] h = tt
beyond-Descending r (s ∷ rows) h = elim (Bool-cases (same_level r s)) [
  | inl y ↦ rw y (beyond-Descending r rows h.1)
  | inr n ↦ rw n h
]

-- Behind the level of the top row nothing is of that level.
beyond-below :
    (r x : Row) (rows : List Row)
    → Descending rows
    → IsTop r rows
    → In x (beyond r rows)
    → more_specific r x ≡ true
unfolding beyond
beyond-below r x [] h top m = elim m [ ]
beyond-below r x (s ∷ rows) h top m = elim (Bool-cases (same_level r s)) [
  | inl y ↦ beyond-below r x rows h.1 (λ z k. top z (inr k)) (rw y at m)
  | inr n ↦ elim (Bool-cases (more_specific r x)) [
    | inl g ↦ g
    | inr g ↦
        let under : more_specific r s ≡ false = (elim (rw n at m) [
          | inl e ↦ rw (← e) g
          | inr k ↦ at_most_trans r x s g (h.0 x k)
        ]) in
        cc (n, same_level-of_at_most r s under (top s (inl refl)))
  ]
]

beyond-length : (r : Row) (rows : List Row) → length (beyond r rows) ≤ length rows
unfolding beyond
beyond-length r [] = omega arith
beyond-length r (s ∷ rows) = ground (arith, beyond-length r rows)

beyond-shorter :
    (r : Row) (rows : List Row) (fuel : ℕ)
    → length (r ∷ rows) ≤ suc fuel
    → length (beyond r (r ∷ rows)) ≤ fuel
unfolding beyond
beyond-shorter r rows fuel h = ground (
  arith,
  beyond-length r rows,
  same_level-of_at_most r r (more_specific_refl r) (more_specific_refl r),
)
