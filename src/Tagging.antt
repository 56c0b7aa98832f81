-- ===== src/Tagging.antt =====
-- server/internal/tags/tagging.go: the tags of files (`file_fields`), and the paths they are
-- inherited along.
pub mod Apply
pub mod Governance
pub mod Same
pub mod Trees
pub mod Effective
use file_tag_system.Prelude.{
  ℕ, suc, ◌+◌, List, [], ◌∷◌, ◌++◌, Bool, true, false, ◌&&◌, ◌==◌, not, Option, none, some, any,
  find, select, if◌then◌else◌,
}
use file_tag_system.Text.{Text}
use file_tag_system.Result.{Result, ok, err, no_rows, constraint, found, guard, ◌>>=◌, ◌>>◌}
use file_tag_system.Db.{FieldType, FileField, Db}
use file_tag_system.Db.Cascade.{has_file, has_type, has_value}
use file_tag_system.Catalog.{FileInfo, materialize}
use file_tag_system.Tags.{type_of}

abbrev pub is_tag : ℕ → ℕ → FileField → Bool
is_tag file ft r = r.file_id == file && r.field_type_id == ft

-- `DELETE FROM file_fields WHERE file_id=? AND field_type_id=?`
abbrev pub clear : ℕ → ℕ → List FileField → List FileField
clear file ft rows = select (λ (r : FileField). not (is_tag file ft r)) rows

abbrev pub is_row : ℕ → ℕ → ℕ → FileField → Bool
is_row file ft fv r = is_tag file ft r && r.field_value_id == fv

abbrev pub tag_row : ℕ → ℕ → ℕ → FileField
tag_row file ft fv = record { file_id = file; field_type_id = ft; field_value_id = fv }

-- The `INSERT … ON CONFLICT DO NOTHING`, under the foreign keys of the table.
unfoldable pub insert_tag : Db → List FileField → ℕ → ℕ → ℕ → Result Db
insert_tag db rows file ft fv =
    if any (is_row file ft fv) rows then ok (record db { file_fields = rows }) else (do
      guard (has_file db.files file && has_type db.field_types ft && has_value db.field_values fv)
          constraint
      ok (record db { file_fields = rows ++ tag_row file ft fv ∷ [] }))

-- `applyTx`, and `ApplyByFileID`, which is `applyTx` in a transaction of its own.
unfoldable pub apply_tag : Db → ℕ → ℕ → ℕ → Result Db
apply_tag db file ft fv = do
  t ← found no_rows (type_of db ft)
  insert_tag db (if t.allow_multi then db.file_fields else clear file ft db.file_fields) file ft fv

-- `ApplyByPath`
unfoldable pub apply_by_path : Db → ℕ → FileInfo → ℕ → ℕ → Result (ℕ × Db)
apply_by_path db sid fi ft fv = do
  r ← materialize db sid fi
  db' ← apply_tag r.1 r.0 ft fv
  ok (r.0, db')

-- `RemoveField`
unfoldable pub remove_field : Db → ℕ → ℕ → Db
remove_field db file ft = record db { file_fields = clear file ft db.file_fields }
