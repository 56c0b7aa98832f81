-- ===== src/Db/Cascade.antt =====
-- The `REFERENCES … ON DELETE CASCADE` clauses of 0001_init.sql for the tables of `Db`. Foreign
-- keys are on (server/internal/db/db.go), so before a `DELETE` every reference is to a row that is
-- there; what the delete takes with it is what refers to a row that is gone.
pub mod Laws
use file_tag_system.Prelude.{
  ℕ, zero, suc, List, [], ◌∷◌, Bool, true, false, ◌&&◌, ◌==◌, Option, none, some, any, select, In,
  ◌≡◌, length,
}
use file_tag_system.Db.{StorageProvider, File, FieldType, FieldValue, FileField, Alias, Db}

abbrev pub has_storage : List StorageProvider → ℕ → Bool
has_storage sps id = any (λ (s : StorageProvider). s.id == id) sps

abbrev pub has_file : List File → ℕ → Bool
has_file fs id = any (λ (f : File). f.id == id) fs

abbrev pub has_type : List FieldType → ℕ → Bool
has_type fts id = any (λ (t : FieldType). t.id == id) fts

abbrev pub has_value : List FieldValue → ℕ → Bool
has_value vs id = any (λ (v : FieldValue). v.id == id) vs

abbrev pub parent_is_in : List FieldValue → Option ℕ → Bool
parent_is_in vs none = true
parent_is_in vs (some p) = has_value vs p

drop_orphans : List FieldValue → List FieldValue
drop_orphans vs = select (λ (v : FieldValue). parent_is_in vs v.parent_id) vs

-- One round for each level of the tree at most.
cascade_values : ℕ → List FieldValue → List FieldValue
unfolding drop_orphans
cascade_values zero vs = vs
cascade_values (suc n) vs = cascade_values n (drop_orphans vs)

-- The values whose field type is there.
abbrev pub typed_values : Db → List FieldValue
typed_values db =
    select (λ (v : FieldValue). has_type db.field_types v.field_type_id) db.field_values

unfoldable pub cascade : Db → Db
unfolding cascade_values
cascade db =
    let files = select (λ (f : File). has_storage db.storage_providers f.storage_id) db.files in
    let typed = typed_values db in
    let values = cascade_values (length typed) typed in
    record db {
      files = files;
      field_values = values;
      file_fields =
          select
            (λ (r : FileField).
              has_file files r.file_id
              && has_type db.field_types r.field_type_id
              && has_value values r.field_value_id)
            db.file_fields;
      aliases = select (λ (a : Alias). has_value values a.field_value_id) db.aliases;
    }

-- No reference is to a row that is not there.
pub record IsReferential (db : Db) : Type 0 where
  pub file_storage :
      (f : File) → In f db.files → has_storage db.storage_providers f.storage_id ≡ true
  pub value_type :
      (v : FieldValue) → In v db.field_values → has_type db.field_types v.field_type_id ≡ true
  pub value_parent :
      (v : FieldValue) → In v db.field_values → parent_is_in db.field_values v.parent_id ≡ true
  pub field_file : (r : FileField) → In r db.file_fields → has_file db.files r.file_id ≡ true
  pub field_type :
      (r : FileField) → In r db.file_fields → has_type db.field_types r.field_type_id ≡ true
  pub field_value :
      (r : FileField) → In r db.file_fields → has_value db.field_values r.field_value_id ≡ true
  pub alias_value :
      (a : Alias) → In a db.aliases → has_value db.field_values a.field_value_id ≡ true
