-- ===== src/Text/Like/Laws.antt =====
-- When `s LIKE p || '%'` says that `p` is a prefix of `s`.
use file_tag_system.Prelude.{
  ℕ, ◌≤◌, [], ◌∷◌, ◌++◌, Bool, true, ◌≡◌, ◌≢◌, ◌⊎◌, refl, arith, ◌==◌, ◌||◌,
}
use file_tag_system.Text.{Text, starts_with}
use file_tag_system.Text.Like.{
  percent, underscore, fold_case, any_suffix, one_char, like, like_prefix,
}

-- A text without the wildcards `%` and `_`.
abbrev pub Plain : Text → Type 0
Plain [] = Unit
Plain (c ∷ p) = (c ≢ percent) × (c ≢ underscore) × Plain p

-- A text without wildcards and without letters of ASCII.
abbrev pub Exact : Text → Type 0
Exact [] = Unit
Exact (c ∷ p) = (c ≢ percent) × (c ≢ underscore) × ((c ≤ 64) ⊎ (123 ≤ c)) × Exact p

any_suffix-like-nil : (s : Text) → any_suffix (like []) s ≡ true
unfolding like any_suffix
any_suffix-like-nil [] = refl
any_suffix-like-nil (x ∷ s) = rw (any_suffix-like-nil s)

any_suffix_self : (k : Text → Bool) (s : Text) → k s ≡ true → any_suffix k s ≡ true
unfolding any_suffix
any_suffix_self k [] h = h
any_suffix_self k (x ∷ s) h = rw h

-- `%` alone matches every text.
pub like-percent : (s : Text) → like (percent ∷ []) s ≡ true
unfolding like
like-percent s = any_suffix-like-nil s

fold_case-exact :
    (c x : ℕ)
    → (c ≤ 64) ⊎ (123 ≤ c)
    → (c == underscore || fold_case c == fold_case x) ≡ (c == underscore || c == x)
unfolding fold_case
fold_case-exact c x h = ground arith

-- Without wildcards and letters the test is an exact prefix test.
pub like_prefix-Exact : (p s : Text) → Exact p → like_prefix p s ≡ starts_with p s
unfolding starts_with like one_char
like_prefix-Exact [] s h = like-percent s
like_prefix-Exact (c ∷ p) [] h = ground arith
like_prefix-Exact (c ∷ p) (x ∷ s) h =
    ground (arith, like_prefix-Exact p s h.3, fold_case-exact c x h.2)

-- Case folding of a whole text.
abbrev pub fold_text : Text → Text
fold_text [] = []
fold_text (c ∷ s) = fold_case c ∷ fold_text s

-- Without wildcards the test is a prefix test that ignores the case of ASCII letters.
pub like_prefix-Plain :
    (p s : Text) → Plain p → like_prefix p s ≡ starts_with (fold_text p) (fold_text s)
unfolding starts_with like one_char
like_prefix-Plain [] s h = like-percent s
like_prefix-Plain (c ∷ p) [] h = ground arith
like_prefix-Plain (c ∷ p) (x ∷ s) h = ground (arith, like_prefix-Plain p s h.2)

-- Whatever wildcards it holds, a text begins with itself in the sense of the test.
pub like_prefix_self : (p : Text) → like_prefix p p ≡ true
unfolding like one_char any_suffix
like_prefix_self [] = refl
like_prefix_self (c ∷ p) =
    let ih = like_prefix_self p in ground (arith, ih, any_suffix_self (like (p ++ percent ∷ [])) p)
