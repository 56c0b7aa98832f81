-- ===== src/Prelude/Lists.antt =====
-- Lists by Boolean tests, as `WHERE` clauses and Go loops use them, and membership by recursion.
use Prim.Native.Nat.{ℕ, zero, suc, ◌+◌}
use mathlib.Core.Path.{◌≡◌, refl, ap}
use mathlib.Core.Logic.{◌⊎◌, inl, inr}
use mathlib.Core.Bool.{Bool, true, false, ◌||◌, ◌&&◌}
use mathlib.Core.Option.{Option, none, some}
use mathlib.Core.List.{List, [], ◌∷◌, ◌++◌, map}
use native.Mathlib.Omega.{arith}
use file_tag_system.Prelude.Tests.{if◌then◌else◌, Bool-cases}

-- The empty type at every level.
pub data Never {ℓ} : Type ℓ where

module _ {ℓ} {A : Type ℓ} where
  abbrev pub length : List A → ℕ
  length [] = 0
  length (x ∷ xs) = suc (length xs)

  abbrev pub take : ℕ → List A → List A
  take zero xs = []
  take (suc n) [] = []
  take (suc n) (x ∷ xs) = x ∷ take n xs

  abbrev pub drop : ℕ → List A → List A
  drop zero xs = xs
  drop (suc n) [] = []
  drop (suc n) (x ∷ xs) = drop n xs

  -- The rows that pass a test, in order.
  abbrev pub select : (A → Bool) → List A → List A
  select p [] = []
  select p (x ∷ xs) = if p x then x ∷ select p xs else select p xs

  -- The first row that passes a test.
  abbrev pub find : (A → Bool) → List A → Option A
  find p [] = none
  find p (x ∷ xs) = if p x then some x else find p xs

  abbrev pub any : (A → Bool) → List A → Bool
  any p [] = false
  any p (x ∷ xs) = p x || any p xs

  abbrev pub all : (A → Bool) → List A → Bool
  all p [] = true
  all p (x ∷ xs) = p x && all p xs

  abbrev pub In : A → List A → Type ℓ
  In a [] = Never
  In a (x ∷ xs) = (a ≡ x) ⊎ In a xs

module _ {ℓ} {A : Type ℓ} where
  pub length-append : (xs ys : List A) → length (xs ++ ys) ≡ length xs + length ys
  length-append [] ys = omega arith
  length-append (x ∷ xs) ys = omega (arith, length-append xs ys)

  pub drop-append : (xs ys : List A) → drop (length xs) (xs ++ ys) ≡ ys
  drop-append [] ys = refl
  drop-append (x ∷ xs) ys = drop-append xs ys

  pub In-append_left : (a : A) (xs ys : List A) → In a xs → In a (xs ++ ys)
  In-append_left a [] ys h = elim h [ ]
  In-append_left a (x ∷ xs) ys (inl e) = inl e
  In-append_left a (x ∷ xs) ys (inr h) = inr (In-append_left a xs ys h)

  pub In-append_right : (a : A) (xs ys : List A) → In a ys → In a (xs ++ ys)
  In-append_right a [] ys h = h
  In-append_right a (x ∷ xs) ys h = inr (In-append_right a xs ys h)

  pub In-append_cases : (a : A) (xs ys : List A) → In a (xs ++ ys) → In a xs ⊎ In a ys
  In-append_cases a [] ys h = inr h
  In-append_cases a (x ∷ xs) ys (inl e) = inl (inl e)
  In-append_cases a (x ∷ xs) ys (inr h) = elim (In-append_cases a xs ys h) [
    | inl l ↦ inl (inr l)
    | inr r ↦ inr r
  ]

  pub select-append :
      (p : A → Bool) (xs ys : List A) → select p (xs ++ ys) ≡ select p xs ++ select p ys
  select-append p [] ys = refl
  select-append p (x ∷ xs) ys = ground (arith, select-append p xs ys)

  pub In-select : (p : A → Bool) (a : A) (xs : List A) → In a xs → p a ≡ true → In a (select p xs)
  In-select p a [] h t = elim h [ ]
  In-select p a (x ∷ xs) (inl e) t = rw (← e, t) (inl refl)
  In-select p a (x ∷ xs) (inr h) t = elim (Bool-cases (p x)) [
    | inl y ↦ rw y (inr (In-select p a xs h t))
    | inr n ↦ rw n (In-select p a xs h t)
  ]

  pub In-of_select :
      (p : A → Bool) (a : A) (xs : List A) → In a (select p xs) → In a xs × (p a ≡ true)
  In-of_select p a [] h = elim h [ ]
  In-of_select p a (x ∷ xs) h = elim (Bool-cases (p x)) [
    | inl y ↦ elim (rw y at h) [
      | inl e ↦ (inl e, rw e y)
      | inr r ↦ let (m, t) = In-of_select p a xs r in (inr m, t)
    ]
    | inr n ↦ let (m, t) = In-of_select p a xs (rw n at h) in (inr m, t)
  ]

  pub select-all :
      (p : A → Bool) (xs : List A) → ((a : A) → In a xs → p a ≡ true) → select p xs ≡ xs
  select-all p [] h = refl
  select-all p (x ∷ xs) h = rw (h x (inl refl)) (ap (◌∷◌ x) (select-all p xs (λ a m. h a (inr m))))

  pub any-true : (p : A → Bool) (a : A) (xs : List A) → In a xs → p a ≡ true → any p xs ≡ true
  any-true p a [] h t = elim h [ ]
  any-true p a (x ∷ xs) (inl e) t = rw (← e, t)
  any-true p a (x ∷ xs) (inr h) t = ground (arith, any-true p a xs h t)

  pub any-elim : (p : A → Bool) (xs : List A) → any p xs ≡ true → (a : A) × In a xs × (p a ≡ true)
  any-elim p [] h = absurd (ground arith)
  any-elim p (x ∷ xs) h = elim (Bool-cases (p x)) [
    | inl y ↦ (x, inl refl, y)
    | inr n ↦ let (a, m, t) = any-elim p xs (rw n at h) in (a, inr m, t)
  ]

  pub any-false : (p : A → Bool) (a : A) (xs : List A) → In a xs → any p xs ≡ false → p a ≡ false
  any-false p a [] h t = elim h [ ]
  any-false p a (x ∷ xs) (inl e) t = rw e (ground arith)
  any-false p a (x ∷ xs) (inr h) t = any-false p a xs h (ground arith)

  pub find-some : (p : A → Bool) (a : A) (xs : List A) → find p xs ≡ some a → In a xs × (p a ≡ true)
  find-some p a [] h = absurd (ground arith)
  find-some p a (x ∷ xs) h = elim (Bool-cases (p x)) [
    | inl y ↦ let e : a ≡ x = ground arith in (inl e, rw e y)
    | inr n ↦ let (m, t) = find-some p a xs (rw n at h) in (inr m, t)
  ]

  pub find-append :
      (p : A → Bool) (xs ys : List A)
      → find p (xs ++ ys) ≡ (elim (find p xs) [ some a ↦ some a | none ↦ find p ys ])
  find-append p [] ys = refl
  find-append p (x ∷ xs) ys = ground (arith, find-append p xs ys)

  -- What is found by one test is found by a stricter one that it passes.
  pub find-stricter :
      (p q : A → Bool) (a : A) (xs : List A)
      → find p xs ≡ some a
      → q a ≡ true
      → find (λ x. p x && q x) xs ≡ some a
  find-stricter p q a [] h t = cc
  find-stricter p q a (x ∷ xs) h t = elim (Bool-cases (p x)) [
    | inl y ↦ let e : a ≡ x = ground arith in rw (y, ← e, t)
    | inr n ↦ rw n (find-stricter p q a xs (rw n at h) t)
  ]

  pub find-none : (p : A → Bool) (a : A) (xs : List A) → In a xs → find p xs ≡ none → p a ≡ false
  find-none p a [] h t = elim h [ ]
  find-none p a (x ∷ xs) (inl e) t = rw e (ground arith)
  find-none p a (x ∷ xs) (inr h) t = find-none p a xs h (ground arith)

module _ {ℓ κ} {A : Type ℓ} {B : Type κ} where
  pub In-map : (f : A → B) (a : A) (xs : List A) → In a xs → In (f a) (map f xs)
  In-map f a [] h = elim h [ ]
  In-map f a (x ∷ xs) (inl e) = inl (ap f e)
  In-map f a (x ∷ xs) (inr h) = inr (In-map f a xs h)

  pub In-of_map :
      (f : A → B) (b : B) (xs : List A) → In b (map f xs) → (a : A) × In a xs × (b ≡ f a)
  In-of_map f b [] h = elim h [ ]
  In-of_map f b (x ∷ xs) (inl e) = (x, inl refl, e)
  In-of_map f b (x ∷ xs) (inr h) = let (a, m, e) = In-of_map f b xs h in (a, inr m, e)
