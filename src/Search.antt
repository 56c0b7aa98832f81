-- ===== src/Search.antt =====
-- server/internal/search/search.go: the search by tags. A negative limit or cursor counts as 0,
-- which the code's tests do not tell from it.
pub mod Page
pub mod Filters
pub mod Hits
pub mod Texts
use file_tag_system.Prelude.{
  ℕ, zero, suc, ◌+◌, ◌-◌, List, [], ◌∷◌, Bool, true, false, ◌&&◌, ◌||◌, ◌==◌, ltb, leb, Option,
  none, some, any, all, find, select, map, take, length, if◌then◌else◌,
}
use file_tag_system.Text.{Text}
use file_tag_system.Text.Like.{like_prefix}
use file_tag_system.Result.{Result, ok, err, no_rows, no_filters, found, guard, ◌>>=◌, ◌>>◌}
use file_tag_system.Db.{File, FieldValue, FileField, Db}
use file_tag_system.Tags.{value_of}

-- `Filter`
pub record Filter : Type 0 where
  pub field_type_id : ℕ
  pub field_value_id : ℕ
  pub strict : Bool

-- `ResultFile`
pub record ResultFile : Type 0 where
  pub id : ℕ
  pub storage_id : ℕ
  pub path : Text
  pub is_dir : Bool
  pub thumbnail_path : Option Text

-- The first lines of `Search`.
unfoldable pub page_limit : ℕ → ℕ
page_limit n = if n == 0 || ltb 500 n then 50 else n

-- The `SELECT id FROM field_values` of `valueIDs`.
abbrev pub is_below : ℕ → Text → FieldValue → Bool
is_below ft path v = v.field_type_id == ft && like_prefix path v.path

-- `valueIDs`
unfoldable pub value_ids : Db → Filter → Result (List ℕ)
value_ids db f = if f.strict then ok (f.field_value_id ∷ []) else (do
  v ← found no_rows (value_of db f.field_value_id)
  ok (map (λ (x : FieldValue). x.id) (select (is_below f.field_type_id v.path) db.field_values)))

-- The loop over the filters: `none` is the early return of an empty result.
pub expand : Db → List Filter → Result (Option (List (List ℕ)))
unfolding value_ids
expand db [] = ok (some [])
expand db (f ∷ fs) = elim (value_ids db f) [
  | err e ↦ err e
  | ok [] ↦ ok none
  | ok (i ∷ is) ↦ elim (expand db fs) [
    | err e ↦ err e
    | ok none ↦ ok none
    | ok (some sets) ↦ ok (some ((i ∷ is) ∷ sets))
  ]
]

-- `sort.SliceStable` by the number of ids.
place : List ℕ → List (List ℕ) → List (List ℕ)
place s [] = s ∷ []
place s (t ∷ sets) = if ltb (length t) (length s) then t ∷ place s sets else s ∷ t ∷ sets

fewest_first : List (List ℕ) → List (List ℕ)
unfolding place
fewest_first [] = []
fewest_first (s ∷ sets) = place s (fewest_first sets)

-- `SELECT file_id FROM file_fields WHERE field_value_id IN (…)` has this file.
abbrev pub carries : List FileField → ℕ → List ℕ → Bool
carries rows file ids =
    any (λ (r : FileField). r.file_id == file && any (λ i. i == r.field_value_id) ids) rows

in_storage : Option ℕ → ℕ → Bool
in_storage none sid = true
in_storage (some s) sid = sid == s

-- The `WHERE` clause of the query.
unfoldable pub is_hit : List FileField → List (List ℕ) → Option ℕ → ℕ → File → Bool
unfolding in_storage
is_hit rows sets sid cursor f =
    all (carries rows f.id) sets && in_storage sid f.storage_id && ltb cursor f.id

-- `ORDER BY f.id`
order_in : File → List File → List File
order_in f [] = f ∷ []
order_in f (g ∷ files) = if ltb g.id f.id then g ∷ order_in f files else f ∷ g ∷ files

unfoldable pub by_id : List File → List File
unfolding order_in
by_id [] = []
by_id (f ∷ files) = order_in f (by_id files)

abbrev pub result_of : File → ResultFile
result_of f = record {
  id = f.id;
  storage_id = f.storage_id;
  path = f.path;
  is_dir = f.is_dir;
  thumbnail_path = f.thumbnail_path;
}

-- `files[i].ID`
id_at : ℕ → List ResultFile → ℕ
id_at n [] = 0
id_at zero (r ∷ rs) = r.id
id_at (suc n) (r ∷ rs) = id_at n rs

-- The rows of the query, which asks for one more than the limit, and what `Search` returns of them.
unfoldable pub cut : ℕ → List ResultFile → List ResultFile × ℕ
unfolding id_at
cut n files = if ltb n (length files) then (take n files, id_at (n - 1) files) else (files, 0)

page : Db → Option ℕ → ℕ → ℕ → List (List ℕ) → List ResultFile × ℕ
unfolding fewest_first is_hit by_id cut
page db sid n cursor sets = cut n (
    take (suc n) (
      map result_of
        (by_id (select (is_hit db.file_fields (fewest_first sets) sid cursor) db.files))))

finish : Db → Option ℕ → ℕ → ℕ → Option (List (List ℕ)) → List ResultFile × ℕ
unfolding page
finish db sid n cursor none = ([], 0)
finish db sid n cursor (some sets) = page db sid n cursor sets

-- `Search`
unfoldable pub search : Db → Option ℕ → List Filter → ℕ → ℕ → Result (List ResultFile × ℕ)
unfolding expand finish page_limit
search db sid [] limit cursor = err no_filters
search db sid (f ∷ fs) limit cursor = do
  sets ← expand db (f ∷ fs)
  ok (finish db sid (page_limit limit) cursor sets)
