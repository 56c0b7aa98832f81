-- ===== src/Tags.antt =====
-- server/internal/tags/tags.go: field types, field values with their materialized paths, aliases.
-- An operation takes the database and returns an error, which leaves it as it was (every
-- transaction that fails is rolled back), or the new database. Errors of the disk are left out.
pub mod Path
pub mod Tree
pub mod Values
pub mod Subtree
pub mod Move
pub mod Cycle
pub mod Delete
pub mod Lists
use file_tag_system.Prelude.{
  ℕ, suc, ◌+◌, List, [], ◌∷◌, ◌++◌, Bool, true, false, ◌&&◌, ◌||◌, ◌==◌, not, ltb, Option, none,
  some, any, find, select, map, drop, length, is_some_of, if◌then◌else◌,
}
use file_tag_system.Text.{Text, slash, len, text_eq, starts_with}
use file_tag_system.Text.Decimal.{format_int}
use file_tag_system.Text.Like.{like_prefix}
use file_tag_system.Result.{
  Result, ok, err, not_found, cycle, field_type_mismatch, multi_value_conflict, constraint, found,
  guard, ◌>>=◌, ◌>>◌,
}
use file_tag_system.Db.{FieldType, FieldValue, FileField, Alias, Db, next_key}
use file_tag_system.Db.Cascade.{has_type, has_value, cascade}

-- `CreateFieldType`
unfoldable pub create_field_type : Db → Text → Bool → ℕ × Db
create_field_type db name multi =
    let id = next_key (λ (t : FieldType). t.id) db.field_types in
    (
      id,
      record db {
        field_types = db.field_types ++ record { id = id; name = name; allow_multi = multi } ∷ [];
      },
    )

abbrev pub type_of : Db → ℕ → Option FieldType
type_of db id = find (λ (t : FieldType). t.id == id) db.field_types

-- `GetFieldType`
abbrev pub get_field_type : Db → ℕ → Result FieldType
get_field_type db id = found not_found (type_of db id)

-- The rows of one file for one field type, counted.
abbrev pub applied : ℕ → ℕ → List FileField → List FileField
applied file ft rows = select (λ (r : FileField). r.file_id == file && r.field_type_id == ft) rows

-- `GROUP BY file_id HAVING count(*) > 1` has a row.
unfoldable pub has_dupes : ℕ → List FileField → Bool
has_dupes ft rows =
    any (λ (r : FileField). r.field_type_id == ft && ltb 1 (length (applied r.file_id ft rows)))
      rows

abbrev pub retype : ℕ → Text → Bool → FieldType → FieldType
retype id name multi t = if t.id == id then record t { name = name; allow_multi = multi } else t

-- `UpdateFieldType`
unfoldable pub update_field_type : Db → ℕ → Text → Bool → Result Db
unfolding has_dupes
update_field_type db id name multi = do
  guard (multi || not (has_dupes id db.file_fields)) multi_value_conflict
  guard (has_type db.field_types id) not_found
  ok (record db { field_types = map (retype id name multi) db.field_types })

-- `DeleteFieldType`
unfoldable pub delete_field_type : Db → ℕ → Result Db
unfolding cascade
delete_field_type db id = do
  guard (has_type db.field_types id) not_found
  ok (
      cascade
        (record db { field_types = select (λ (t : FieldType). not (t.id == id)) db.field_types }))

abbrev pub value_of : Db → ℕ → Option FieldValue
value_of db id = find (λ (v : FieldValue). v.id == id) db.field_values

-- `strconv.FormatInt(id, 10) + "/"`
unfoldable pub segment : ℕ → Text
segment id = format_int id ++ slash ∷ []

-- The path of the parent, read with the check of its field type; "/" for a root.
unfoldable pub parent_path : Db → ℕ → Option ℕ → Result Text
parent_path db ft none = ok (slash ∷ [])
parent_path db ft (some pid) = do
  p ← found not_found (value_of db pid)
  guard (p.field_type_id == ft) field_type_mismatch
  ok p.path

unfoldable pub new_value : Db → ℕ → Option ℕ → Text → Text → FieldValue
unfolding segment
new_value db ft parent value above =
    let id = next_key (λ (v : FieldValue). v.id) db.field_values in
    record {
      id = id;
      field_type_id = ft;
      parent_id = parent;
      value = value;
      path = above ++ segment id;
    }

-- `CreateFieldValue`: the `INSERT` and the `UPDATE` of the path are one step here.
unfoldable pub create_field_value : Db → ℕ → Option ℕ → Text → Result (FieldValue × Db)
unfolding parent_path new_value
create_field_value db ft parent value = do
  above ← parent_path db ft parent
  guard (has_type db.field_types ft) constraint
  let v = new_value db ft parent value above
  ok (v, record db { field_values = db.field_values ++ v ∷ [] })

-- `GetFieldValue`
abbrev pub get_field_value : Db → ℕ → Result FieldValue
get_field_value db id = found not_found (value_of db id)

abbrev pub relabel : ℕ → Text → FieldValue → FieldValue
relabel id value v = if v.id == id then record v { value = value } else v

-- `RenameFieldValue`
unfoldable pub rename_field_value : Db → ℕ → Text → Result Db
rename_field_value db id value = do
  guard (has_value db.field_values id) not_found
  ok (record db { field_values = map (relabel id value) db.field_values })

-- `UPDATE field_values SET path = ? || substr(path, ?) WHERE path LIKE ? || '%'`
unfoldable pub repath : Text → Text → FieldValue → FieldValue
repath old_path new_path v =
    if like_prefix old_path v.path
    then record v { path = new_path ++ drop (len old_path) v.path }
    else v

-- `UPDATE field_values SET parent_id=? WHERE id=?`
unfoldable pub reparent : ℕ → Option ℕ → FieldValue → FieldValue
reparent id parent v = if v.id == id then record v { parent_id = parent } else v

-- `MoveFieldValue`
unfoldable pub move_field_value : Db → ℕ → Option ℕ → Result Db
unfolding parent_path segment repath reparent
move_field_value db id parent = do
  v ← found not_found (value_of db id)
  above ← parent_path db v.field_type_id parent
  let new_path = above ++ segment id
  if text_eq new_path v.path then ok db else (do
    guard (not (starts_with v.path above)) cycle
    ok (record db {
      field_values = map (λ w. reparent id parent (repath v.path new_path w)) db.field_values;
    }))

-- `DeleteFieldValue`
unfoldable pub delete_field_value : Db → ℕ → Result Db
unfolding cascade
delete_field_value db id = do
  v ← found not_found (value_of db id)
  ok (
      cascade (record db {
        field_values = select (λ (w : FieldValue). not (like_prefix v.path w.path)) db.field_values;
      }))

-- `AddAlias`
unfoldable pub add_alias : Db → ℕ → Text → Result (ℕ × Db)
add_alias db fv alias = do
  guard (has_value db.field_values fv) constraint
  let id = next_key (λ (a : Alias). a.id) db.aliases
  ok (
    id,
    record db {
      aliases = db.aliases ++ record { id = id; field_value_id = fv; alias = alias } ∷ [];
    },
  )

-- `DeleteAlias`
unfoldable pub delete_alias : Db → ℕ → Db
delete_alias db id = record db { aliases = select (λ (a : Alias). not (a.id == id)) db.aliases }
