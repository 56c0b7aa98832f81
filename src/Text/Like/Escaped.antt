-- ===== src/Text/Like/Escaped.antt =====
-- SQL's `s LIKE pattern ESCAPE '\'` as SQLite reads it, and escapeLike of
-- server/internal/search/search.go.
use file_tag_system.Prelude.{
  ℕ, List, [], ◌∷◌, ◌++◌, Bool, true, false, ◌&&◌, ◌||◌, ◌==◌, map, ◌≡◌, ◌↔◌, refl, ap, ◌∙◌, inl,
  inr, arith, Bool-cases, if◌then◌else◌,
}
use file_tag_system.Text.{Text}
use file_tag_system.Text.Like.{percent, underscore, fold_case, any_suffix}

abbrev backslash : ℕ
backslash = b'\\'

-- A pattern that ends in the escape character is broken, and matches nothing.
data Token : Type 0 where
  any_run any_one broken : Token
  just : ℕ → Token

wildcard : ℕ → Token
wildcard c = if c == percent then any_run else if c == underscore then any_one else just c

-- The flag tells that the character before was the escape character.
tokens : Bool → Text → List Token
unfolding wildcard
tokens true [] = broken ∷ []
tokens true (c ∷ p) = just c ∷ tokens false p
tokens false [] = []
tokens false (c ∷ p) =
    let quoted = tokens true p in
    let rest = tokens false p in if c == backslash then quoted else wildcard c ∷ rest

matches : List Token → Text → Bool
matches [] [] = true
matches [] (x ∷ s) = false
matches (any_run ∷ ts) s = any_suffix (matches ts) s
matches (any_one ∷ ts) [] = false
matches (any_one ∷ ts) (x ∷ s) = matches ts s
matches (broken ∷ ts) s = false
matches (just c ∷ ts) [] = false
matches (just c ∷ ts) (x ∷ s) = fold_case c == fold_case x && matches ts s

-- The pattern stands first, as for `like`.
pub like_escaped : Text → Text → Bool
unfolding tokens matches
like_escaped p s = matches (tokens false p) s

-- `escapeLike`
unfoldable pub escape_like : Text → Text
escape_like [] = []
escape_like (c ∷ t) =
    let rest = escape_like t in
    if c == backslash || (c == percent || c == underscore) then backslash ∷ c ∷ rest else c ∷ rest

-- The same characters but for the case of letters of ASCII.
abbrev pub fold_each : Text → Text
fold_each t = map fold_case t

-- A part of `s` is `k` but for the case of letters of ASCII.
abbrev pub Contains : Text → Text → Type 0
Contains k s =
    (before : Text) × (part : Text) × (after : Text) × (s ≡ before ++ (part ++ after))
    × (fold_each part ≡ fold_each k)

tokens-escape_like : (k p : Text) → tokens false (escape_like k ++ p) ≡ map just k ++ tokens false p
unfolding tokens escape_like wildcard
tokens-escape_like [] p = refl
tokens-escape_like (c ∷ k) p = ground (arith, tokens-escape_like k p)

run_splits :
    (ts : List Token) (s : Text)
    → any_suffix (matches ts) s ≡ true
    → (before : Text) × (after : Text) × (s ≡ before ++ after) × (matches ts after ≡ true)
unfolding any_suffix
run_splits ts [] h = ([], [], refl, h)
run_splits ts (x ∷ s) h = elim (Bool-cases (matches ts (x ∷ s))) [
  | inl y ↦ ([], x ∷ s, refl, y)
  | inr n ↦
      let (before, after, e, k) = run_splits ts s (rw n at h) in
      (x ∷ before, after, ap (◌∷◌ x) e, k)
]

run_at :
    (ts : List Token) (before after : Text)
    → matches ts after ≡ true
    → any_suffix (matches ts) (before ++ after) ≡ true
unfolding any_suffix
run_at ts [] [] h = h
run_at ts [] (x ∷ s) h = rw h refl
run_at ts (x ∷ before) after h = ground (arith, run_at ts before after h)

literal_splits :
    (k : Text) (ts : List Token) (s : Text)
    → matches (map just k ++ ts) s ≡ true
    → (part : Text) × (after : Text) × (s ≡ part ++ after)
      × (fold_each part ≡ fold_each k)
      × (matches ts after ≡ true)
unfolding matches
literal_splits [] ts s h = ([], s, refl, refl, h)
literal_splits (c ∷ k) ts [] h = cc
literal_splits (c ∷ k) ts (x ∷ s) h =
    let same : fold_case x ≡ fold_case c = ground arith in
    let more : matches (map just k ++ ts) s ≡ true = ground arith in
    let (part, after, e, f, m) = literal_splits k ts s more in
    (x ∷ part, after, ap (◌∷◌ x) e, ap (λ y. y ∷ fold_each part) same ∙ ap (◌∷◌ (fold_case c)) f, m)

literal_at :
    (k part after : Text) (ts : List Token)
    → fold_each part ≡ fold_each k
    → matches ts after ≡ true
    → matches (map just k ++ ts) (part ++ after) ≡ true
unfolding matches
literal_at [] [] after ts e h = h
literal_at [] (x ∷ part) after ts e h = cc
literal_at (c ∷ k) [] after ts e h = cc
literal_at (c ∷ k) (x ∷ part) after ts e h =
    let same : fold_case x ≡ fold_case c = ground arith in
    let more : fold_each part ≡ fold_each k = ground arith in
    ground (arith, literal_at k part after ts more h)

any_run-all : (s : Text) → matches (any_run ∷ []) s ≡ true
unfolding matches any_suffix
any_run-all [] = refl
any_run-all (x ∷ s) = any_run-all s

pub like_escaped-Contains :
    (k s : Text) → (like_escaped (percent ∷ escape_like k ++ percent ∷ []) s ≡ true) ↔ Contains k s
unfolding like_escaped tokens wildcard matches
like_escaped-Contains k s = (
  (λ h.
      let (before, rest, e, m) =
        run_splits (map just k ++ any_run ∷ []) s (rw (tokens-escape_like k (percent ∷ [])) at h) in
      let (part, after, e', f, last) = literal_splits k (any_run ∷ []) rest m in
      (before, part, after, e ∙ ap (λ t. before ++ t) e', f)),
  λ (before, part, after, e, f).
      rw (tokens-escape_like k (percent ∷ []), e)
        (run_at (map just k ++ any_run ∷ []) before (part ++ after)
          (literal_at k part after (any_run ∷ []) f (any_run-all after))),
)
