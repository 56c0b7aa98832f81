-- ===== src/Text/Like.antt =====
-- SQL's `s LIKE pattern` as SQLite reads it: `%` stands for any text, `_` for any one character,
-- and letters of ASCII match in either case.
pub mod Laws
pub mod Escaped
use file_tag_system.Prelude.{
  ℕ, ◌+◌, List, [], ◌∷◌, ◌++◌, Bool, true, false, ◌&&◌, ◌||◌, ◌==◌, leb, if◌then◌else◌,
}
use file_tag_system.Text.{Text}

abbrev pub percent : ℕ
percent = b'%'

abbrev pub underscore : ℕ
underscore = b'_'

unfoldable pub fold_case : ℕ → ℕ
fold_case c = if leb b'A' c && leb c b'Z' then c + 32 else c

any_suffix : (Text → Bool) → Text → Bool
any_suffix k [] = k []
any_suffix k (x ∷ s) = k (x ∷ s) || any_suffix k s

one_char : ℕ → (Text → Bool) → Text → Bool
one_char c k [] = false
one_char c k (x ∷ s) = (c == underscore || fold_case c == fold_case x) && k s

-- The pattern stands first: `like p s` is `s LIKE p`.
unfoldable pub like : Text → Text → Bool
unfolding any_suffix one_char fold_case
like [] [] = true
like [] (x ∷ s) = false
like (c ∷ p) s = if c == percent then any_suffix (like p) s else one_char c (like p) s

-- The test `s LIKE p || '%'` of the program's queries.
abbrev pub like_prefix : Text → Text → Bool
like_prefix p s = like (p ++ percent ∷ []) s
