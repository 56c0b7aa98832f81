-- ===== src/Search/Texts.antt =====
-- server/internal/search/search.go: the search for values by text. Which characters are white space
-- is unicode's, and which rows the trigram index of SQLite finds for a query is its own: both are
-- arguments. Values of the same text stay in the order of the table.
pub mod Named
use file_tag_system.Prelude.{
  ℕ, List, [], ◌∷◌, ◌++◌, Bool, true, false, ◌&&◌, ◌||◌, ◌==◌, ltb, leb, Option, none, some, any,
  all, select, take, length, if◌then◌else◌,
}
use file_tag_system.Text.{Text}
use file_tag_system.Text.Order.{sort_by}
use file_tag_system.Text.Like.{percent}
use file_tag_system.Text.Like.Escaped.{like_escaped, escape_like}
use file_tag_system.Db.{FieldValue, Alias, Db}

abbrev quote : ℕ
quote = b'"'

double_quotes : Text → Text
double_quotes [] = []
double_quotes (c ∷ t) =
    let rest = double_quotes t in if c == quote then quote ∷ quote ∷ rest else c ∷ rest

-- The first lines of `SearchValues`.
unfoldable pub value_limit : ℕ → ℕ
value_limit n = if n == 0 || ltb 200 n then 50 else n

-- `AND fv.field_type_id = ?`, where a type is asked for.
abbrev pub of_type : Option ℕ → FieldValue → Bool
of_type none v = true
of_type (some ft) v = v.field_type_id == ft

-- `"%" + escapeLike(keyword) + "%"`
abbrev pub keyword_pattern : Text → Text
keyword_pattern keyword = percent ∷ escape_like keyword ++ percent ∷ []

abbrev pub is_alias_named : Text → FieldValue → Alias → Bool
is_alias_named keyword v a =
    a.field_value_id == v.id && like_escaped (keyword_pattern keyword) a.alias

abbrev pub is_named : Db → Text → FieldValue → Bool
is_named db keyword v =
    like_escaped (keyword_pattern keyword) v.value || any (is_alias_named keyword v) db.aliases

-- `ORDER BY fv.value LIMIT ?`
abbrev pub listed : ℕ → (FieldValue → Bool) → List FieldValue → List FieldValue
listed n p vs = take n (sort_by (λ (v : FieldValue). v.value) (select p vs))

-- `searchValuesLike`
unfoldable pub search_values_like : Db → Text → Option ℕ → ℕ → List FieldValue
search_values_like db keyword ft n =
    listed n (λ v. is_named db keyword v && of_type ft v) db.field_values

-- `searchValuesFTS`
search_values_fts : (Db → Text → ℕ → Bool) → Db → Text → Option ℕ → ℕ → List FieldValue
unfolding double_quotes
search_values_fts fts db keyword ft n =
    listed n
      (λ (v : FieldValue).
        fts db (quote ∷ double_quotes keyword ++ quote ∷ []) v.id && of_type ft v)
      db.field_values

-- `SearchValues`
unfoldable pub search_values :
    (ℕ → Bool) → (Db → Text → ℕ → Bool) → Db → Text → Option ℕ → ℕ → List FieldValue
unfolding search_values_fts search_values_like value_limit
search_values is_space fts db keyword ft limit =
    if all is_space keyword
    then []
    else if leb 3 (length keyword)
    then search_values_fts fts db keyword ft (value_limit limit)
    else search_values_like db keyword ft (value_limit limit)
