-- ===== src/Tagging/Governance.antt =====
-- server/internal/tags/governance.go: tags for many targets at once, the merge of two values, and
-- the counts of uses.
pub mod Batch
use file_tag_system.Prelude.{
  ℕ, List, [], ◌∷◌, ◌++◌, Bool, true, false, ◌&&◌, ◌==◌, not, Option, none, some, any, select, map,
  length, is_some_of, if◌then◌else◌,
}
use file_tag_system.Text.{Text}
use file_tag_system.Text.Like.{like_prefix}
use file_tag_system.Result.{
  Result, ok, err, not_found, self_merge, field_type_mismatch, has_children, found, guard, ◌>>=◌,
  ◌>>◌,
}
use file_tag_system.Db.{FieldValue, FileField, Alias, Db, next_key}
use file_tag_system.Db.Cascade.{cascade}
use file_tag_system.Catalog.{FileInfo, materialize}
use file_tag_system.Tags.{value_of}
use file_tag_system.Tagging.{clear, is_row, apply_tag}

-- `FieldRef`
pub record FieldRef : Type 0 where
  pub field_type_id : ℕ
  pub field_value_id : ℕ

-- `BatchOp`
pub record BatchOp : Type 0 where
  pub storage_id : ℕ
  pub fi : FileInfo
  pub apply : List FieldRef
  pub remove : List ℕ

-- The two inner loops of `Batch`.
unfoldable pub remove_each : Db → ℕ → List ℕ → Db
remove_each db id [] = db
remove_each db id (ft ∷ fts) =
    remove_each (record db { file_fields = clear id ft db.file_fields }) id fts

unfoldable pub apply_each : Db → ℕ → List FieldRef → Result Db
apply_each db id [] = ok db
apply_each db id (a ∷ refs) = elim (apply_tag db id a.field_type_id a.field_value_id) [
  | err e ↦ err e
  | ok d ↦ apply_each d id refs
]

unfoldable pub one_op : Db → BatchOp → Result Db
unfolding remove_each apply_each
one_op db op = do
  r ← materialize db op.storage_id op.fi
  apply_each (remove_each r.1 r.0 op.remove) r.0 op.apply

-- `Batch`
unfoldable pub batch : Db → List BatchOp → Result Db
unfolding one_op
batch db [] = ok db
batch db (op ∷ ops) = elim (one_op db op) [ err e ↦ err e | ok d ↦ batch d ops ]

-- `UPDATE OR IGNORE file_fields SET field_value_id=? WHERE field_value_id=?`: a row is left if the
-- table has the row it would become. By the key of the table no two rows become one.
unfoldable pub repoint : ℕ → ℕ → List FileField → FileField → FileField
repoint id target rows r =
    if r.field_value_id == id && not (any (is_row r.file_id r.field_type_id target) rows)
    then record r { field_value_id = target }
    else r

abbrev pub realias : ℕ → ℕ → Alias → Alias
realias id target a = if a.field_value_id == id then record a { field_value_id = target } else a

abbrev pub label_alias : Db → ℕ → FieldValue → Alias
label_alias db target v = record {
  id = next_key (λ (a : Alias). a.id) db.aliases;
  field_value_id = target;
  alias = v.value;
}

-- `MergeFieldValue`
unfoldable pub merge_field_value : Db → ℕ → ℕ → Result Db
unfolding repoint cascade
merge_field_value db id target = do
  guard (not (id == target)) self_merge
  v ← found not_found (value_of db id)
  w ← found not_found (value_of db target)
  guard (v.field_type_id == w.field_type_id) field_type_mismatch
  guard (not (any (λ (x : FieldValue). is_some_of x.parent_id id) db.field_values)) has_children
  ok (
      cascade (record db {
        file_fields =
            select (λ (r : FileField). not (r.field_value_id == id))
              (map (repoint id target db.file_fields) db.file_fields);
        aliases = map (realias id target) db.aliases ++ label_alias db target v ∷ [];
        field_values = select (λ (x : FieldValue). not (x.id == id)) db.field_values;
      }))

abbrev pub is_used_below : Db → Text → ℕ → Bool
is_used_below db path id =
    any (λ (x : FieldValue). x.id == id && like_prefix path x.path) db.field_values

-- `ValueUsage`
unfoldable pub value_usage : Db → ℕ → Result (ℕ × ℕ)
value_usage db id = do
  v ← found not_found (value_of db id)
  ok (
    length (select (λ (r : FileField). r.field_value_id == id) db.file_fields),
    length (select (λ (r : FileField). is_used_below db v.path r.field_value_id) db.file_fields),
  )
