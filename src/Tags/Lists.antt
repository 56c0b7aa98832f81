-- ===== src/Tags/Lists.antt =====
-- The queries of server/internal/tags/tags.go and governance.go that return lists and counts.
use file_tag_system.Prelude.{
  ℕ, List, [], ◌∷◌, Bool, ◌&&◌, ◌==◌, not, none, some, any, select, map, length, is_some_of,
  if◌then◌else◌,
}
use file_tag_system.Text.{Text}
use file_tag_system.Text.Like.{like_prefix}
use file_tag_system.Text.Order.{sort_by}
use file_tag_system.Result.{Result, ok, not_found, found, ◌>>=◌}
use file_tag_system.Db.{FieldType, FieldValue, FileField, Alias, Db}
use file_tag_system.Tags.{value_of}

-- `ListFieldTypes`; the table is in the order of its keys.
abbrev pub list_field_types : Db → List FieldType
list_field_types db = db.field_types

abbrev pub by_value : List FieldValue → List FieldValue
by_value vs = sort_by (λ (v : FieldValue). v.value) vs

is_root : FieldValue → Bool
is_root v = elim v.parent_id [ none ↦ Bool.true | some p ↦ Bool.false ]

-- `ListRootValues`
unfoldable pub list_root_values : Db → ℕ → List FieldValue
unfolding is_root
list_root_values db ft =
    by_value (select (λ (v : FieldValue). v.field_type_id == ft && is_root v) db.field_values)

-- `ListChildValues`
unfoldable pub list_child_values : Db → ℕ → List FieldValue
list_child_values db parent =
    by_value (select (λ (v : FieldValue). is_some_of v.parent_id parent) db.field_values)

-- `ListAliases`
unfoldable pub list_aliases : Db → ℕ → List Text
list_aliases db fv =
    sort_by (λ (t : Text). t)
      (map (λ (a : Alias). a.alias) (select (λ (a : Alias). a.field_value_id == fv) db.aliases))

abbrev pub is_used : Db → FieldValue → Bool
is_used db v = any (λ (r : FileField). r.field_value_id == v.id) db.file_fields

-- `UnusedValues`
unfoldable pub unused_values : Db → ℕ → List FieldValue
unused_values db ft =
    by_value
      (select (λ (v : FieldValue). v.field_type_id == ft && not (is_used db v)) db.field_values)

-- `SELECT DISTINCT`
unfoldable pub distinct_ids : List ℕ → List ℕ
distinct_ids [] = []
distinct_ids (x ∷ xs) =
    let rest = distinct_ids xs in if any (λ y. y == x) rest then rest else x ∷ rest

-- The values below a path, and the files that carry one of them.
abbrev pub values_below : Db → Text → List FieldValue
values_below db path = select (λ (v : FieldValue). like_prefix path v.path) db.field_values

abbrev pub carriers : Db → Text → List ℕ
carriers db path = distinct_ids (
    map (λ (r : FileField). r.file_id)
      (select
        (λ (r : FileField).
          any (λ (v : FieldValue). v.id == r.field_value_id) (values_below db path))
        db.file_fields))

-- `DeleteInfluence`
unfoldable pub delete_influence : Db → ℕ → Result (ℕ × ℕ)
delete_influence db id = do
  v ← found not_found (value_of db id)
  ok (length (values_below db v.path), length (carriers db v.path))
