-- ===== src/Api/Query.antt =====
-- The helpers of server/internal/api/handlers_files.go that read and clean texts.
pub mod Numbers
use file_tag_system.Prelude.{
  ℕ, [], ◌∷◌, ◌++◌, ◌||◌, ◌==◌, not, ltb, Option, none, some, any, select, if◌then◌else◌,
}
use file_tag_system.Text.{Text, slash}
use file_tag_system.Text.Decimal.{value, is_digit}

-- `strconv.ParseInt(s, 10, 64)` behind the sign.
unfoldable pub digits : Text → Option ℕ
unfolding is_digit
digits [] = none
digits (c ∷ s) =
    if any (λ d. not (is_digit d)) (c ∷ s)
    then none
    else if ltb (value 0 (c ∷ s)) 0x8000000000000000
    then some (value 0 (c ∷ s))
    else none

-- A number that is negative is refused, so that behind a minus only zero is left.
zero_only : Option ℕ → Option ℕ
zero_only none = none
zero_only (some n) = if n == 0 then some 0 else none

-- `parseID2`
unfoldable pub parse_id2 : Text → Option ℕ
unfolding digits zero_only
parse_id2 [] = none
parse_id2 (c ∷ s) =
    if c == b'-' then zero_only (digits s) else if c == b'+' then digits s else digits (c ∷ s)

-- `strings.TrimLeft(s, "/")`
unfoldable pub trim_left : Text → Text
trim_left [] = []
trim_left (c ∷ s) = let rest = trim_left s in if c == slash then rest else c ∷ s

-- `strings.TrimRight(s, "/")`
unfoldable pub trim_right : Text → Text
trim_right [] = []
trim_right (c ∷ s) = elim (trim_right s) [
  | [] ↦ if c == slash then [] else c ∷ []
  | d ∷ r ↦ c ∷ d ∷ r
]

slash_after : Text → Text
slash_after [] = []
slash_after (c ∷ s) = (c ∷ s) ++ slash ∷ []

-- `normalizeDir`
unfoldable pub normalize_dir : Text → Text
unfolding trim_left trim_right slash_after
normalize_dir path = slash_after (trim_right (trim_left path))

-- `sanitizeFilename` removes line ends, quotes and backslashes.
unfoldable pub sanitize_filename : Text → Text
sanitize_filename name =
    select (λ c. not (c == b'\r' || c == b'\n' || c == b'"' || c == b'\\')) name

-- A number of the query, or the default where it is none.
unfoldable pub or_else : ℕ → Option ℕ → ℕ
or_else n none = n
or_else n (some m) = m
