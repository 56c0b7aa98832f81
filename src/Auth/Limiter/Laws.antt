-- ===== src/Auth/Limiter/Laws.antt =====
-- `Allowed` and `Fail` of server/internal/auth/limiter.go, over runs of failures.
use file_tag_system.Prelude.{
  ℕ, suc, ◌+◌, ◌≤◌, ◌<◌, List, [], ◌∷◌, true, false, ltb, leb, ◌≡◌, ◌≢◌, ◌↔◌, inl, inr, refl, sym,
  ap, ◌∙◌, arith, Option, none, some, length, Bool-cases,
}
use file_tag_system.Text.{Text}
use file_tag_system.Text.Laws.{text_eq_refl, text_eq-false}
use file_tag_system.Auth.Limiter.{Limiter, reset, allowed, allowed_by, fail}

-- Failures of one key, one after the other.
abbrev pub fail_each : Text → List ℕ → Limiter → Limiter
fail_each key [] l = l
fail_each key (now ∷ times) l = fail_each key times (fail now key l)

-- The time of the last one.
abbrev pub last_of : ℕ → List ℕ → ℕ
last_of t [] = t
last_of t (x ∷ times) = last_of x times

pub fails-fail :
    (now : ℕ) (key : Text) (l : Limiter) → (fail now key l).fails key ≡ suc (l.fails key)
unfolding fail
fails-fail now key l = rw (text_eq_refl key) refl

pub until-fail_below :
    (now : ℕ) (key : Text) (l : Limiter)
    → suc (l.fails key) < l.max
    → (fail now key l).until key ≡ l.until key
unfolding fail
until-fail_below now key l h = ground arith

pub until-fail_full :
    (now : ℕ) (key : Text) (l : Limiter)
    → 0 < l.max
    → l.max ≤ suc (l.fails key)
    → (fail now key l).until key ≡ some (now + l.lockout)
unfolding fail
until-fail_full now key l pos h = let self = text_eq_refl key in ground arith

pub constants-fail :
    (now : ℕ) (key : Text) (l : Limiter)
    → ((fail now key l).max ≡ l.max) × ((fail now key l).lockout ≡ l.lockout)
unfolding fail
constants-fail now key l = (refl, refl)

until_below :
    (times : List ℕ) (key : Text) (l : Limiter)
    → l.fails key + length times < l.max
    → (fail_each key times l).until key ≡ l.until key
until_below [] key l h = refl
until_below (now ∷ times) key l h =
    let counted = fails-fail now key l in
    let (same, e) = constants-fail now key l in
    until_below times key (fail now key l) (omega (arith, h, counted, same))
    ∙ until-fail_below now key l (omega (arith, h))

until_full :
    (times : List ℕ) (now : ℕ) (key : Text) (l : Limiter)
    → 0 < l.max
    → l.max ≤ l.fails key + suc (length times)
    → (fail_each key (now ∷ times) l).until key ≡ some (last_of now times + l.lockout)
until_full [] now key l pos h = until-fail_full now key l pos (omega (arith, h))
until_full (x ∷ times) now key l pos h =
    let counted = fails-fail now key l in
    let (same, e) = constants-fail now key l in
    until_full times x key (fail now key l) (omega (arith, pos, same))
      (omega (arith, h, counted, same))
    ∙ ap (λ n. some (last_of x times + n)) e

blocked :
    (now : ℕ) (key : Text) (l : Limiter) (o : Option ℕ)
    → l.until key ≡ o
    → (allowed now key l).0 ≡ (allowed_by now key l o).0
unfolding allowed
blocked now key l o h = rw h refl

-- For a key without failures, under a positive bound: after a run of failures the key is refused
-- exactly if they reached the bound and the lockout since the last of them is not over.
pub allowed-fail_each :
    (l : Limiter) (key : Text) (first : ℕ) (times : List ℕ) (now : ℕ)
    → 0 < l.max
    → l.fails key ≡ 0
    → l.until key ≡ none
    → ((allowed now key (fail_each key (first ∷ times) l)).0 ≡ false)
      ↔ ((l.max ≤ suc (length times)) × (now < last_of first times + l.lockout))
unfolding allowed_by
allowed-fail_each l key first times now pos zero_fails free =
    elim (Bool-cases (leb l.max (suc (length times)))) [
      | inl y ↦
          let e =
            blocked now key (fail_each key (first ∷ times) l) _
              (until_full times first key l pos (ground arith)) in
          rw e (ground arith)
      | inr n ↦
          let e =
            blocked now key (fail_each key (first ∷ times) l) none
              (until_below (first ∷ times) key l (ground arith) ∙ free) in
          rw e (ground arith)
    ]

-- When the lockout is over, the next attempt is let through and the failures are forgotten.
pub allowed-over :
    (l : Limiter) (key : Text) (now t : ℕ)
    → l.until key ≡ some t
    → t ≤ now
    → ((allowed now key l).0 ≡ true)
      × ((allowed now key l).1.fails key ≡ 0)
      × ((allowed now key l).1.until key ≡ none)
unfolding allowed allowed_by reset
allowed-over l key now t h over =
    let self = text_eq_refl key in
    let late : ltb now t ≡ false = ground arith in rw (h, late) (refl, rw self refl, rw self refl)

pub maps-fail_other :
    (l : Limiter) (key k : Text) (t : ℕ)
    → k ≢ key
    → ((fail t key l).until k ≡ l.until k) × ((fail t key l).fails k ≡ l.fails k)
unfolding fail
maps-fail_other l key k t apart =
    let missed = text_eq-false key k (λ e. apart (sym e)) in (ground arith, rw missed refl)

allowed_by-same :
    (now : ℕ) (k : Text) (l m : Limiter) (o : Option ℕ)
    → (allowed_by now k l o).0 ≡ (allowed_by now k m o).0
unfolding allowed_by
allowed_by-same now k l m none = refl
allowed_by-same now k l m (some t) = elim (Bool-cases (ltb now t)) [
  | inl y ↦ rw y refl
  | inr n ↦ rw n refl
]

-- A failure of one key does not change whether another key is let through, nor its failures.
pub fail-other :
    (l : Limiter) (key k : Text) (t now : ℕ)
    → k ≢ key
    → ((allowed now k (fail t key l)).0 ≡ (allowed now k l).0)
      × ((fail t key l).fails k ≡ l.fails k)
fail-other l key k t now apart =
    let (u, f) = maps-fail_other l key k t apart in
    (
      blocked now k (fail t key l) _ u
          ∙ allowed_by-same now k (fail t key l) l (l.until k)
          ∙ sym (blocked now k l _ refl),
      f,
    )

-- The lookup of one key leaves the counter and the lock of every other key.
pub maps-allowed_other :
    (l : Limiter) (key k : Text) (now : ℕ)
    → k ≢ key
    → ((allowed now key l).1.until k ≡ l.until k)
      × ((allowed now key l).1.fails k ≡ l.fails k)
      × ((allowed now key l).1.max ≡ l.max)
      × ((allowed now key l).1.lockout ≡ l.lockout)
unfolding allowed allowed_by reset
maps-allowed_other l key k now apart = by_lock (l.until key)
  where
    by_lock :
        (o : Option ℕ)
        → ((allowed_by now key l o).1.until k ≡ l.until k)
          × ((allowed_by now key l o).1.fails k ≡ l.fails k)
          × ((allowed_by now key l o).1.max ≡ l.max)
          × ((allowed_by now key l o).1.lockout ≡ l.lockout)
    by_lock none = (refl, refl, refl, refl)
    by_lock (some t) =
        let missed = text_eq-false key k (λ e. apart (sym e)) in
        elim (Bool-cases (ltb now t)) [
          | inl y ↦ rw y (refl, refl, refl, refl)
          | inr n ↦ rw (n, missed) (refl, refl, refl, refl)
        ]

pub allowed-free :
    (l : Limiter) (key : Text) (now : ℕ) → l.until key ≡ none → allowed now key l ≡ (true, l)
unfolding allowed allowed_by
allowed-free l key now e = rw e refl

pub allowed-shut :
    (l : Limiter) (key : Text) (now t : ℕ)
    → l.until key ≡ some t
    → now < t
    → allowed now key l ≡ (false, l)
unfolding allowed allowed_by
allowed-shut l key now t e early =
    let before : ltb now t ≡ true = ground arith in rw (e, before) refl
