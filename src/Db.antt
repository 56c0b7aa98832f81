-- ===== src/Db.antt =====
-- The tables of server/internal/db/migrations/0001_init.sql as lists of rows, with the columns that
-- the modelled code reads; the row types are those of server/internal/models/models.go. An
-- `INTEGER PRIMARY KEY` is given as SQLite gives it: one more than the largest in the table.
pub mod Keys
pub mod Cascade
use file_tag_system.Prelude.{
  ℕ, zero, suc, ◌+◌, List, [], ◌∷◌, Bool, Option, none, ltb, if◌then◌else◌,
}
use file_tag_system.Text.{Text}
use file_tag_system.Models.{Permission}

pub record StorageProvider : Type 0 where
  pub id : ℕ
  pub name : Text
  pub type : Text
  pub root_path : Text

-- `last_scanned` is the number of the scan that saw the row last.
pub record File : Type 0 where
  pub id : ℕ
  pub storage_id : ℕ
  pub path : Text
  pub is_dir : Bool
  pub thumbnail_path : Option Text
  pub missing : Bool
  pub size_bytes : Option ℕ
  pub modified_at_fs : Option Text
  pub created_at_fs : Option Text
  pub last_scanned : Option ℕ

pub record FieldType : Type 0 where
  pub id : ℕ
  pub name : Text
  pub allow_multi : Bool

pub record FieldValue : Type 0 where
  pub id : ℕ
  pub field_type_id : ℕ
  pub parent_id : Option ℕ
  pub value : Text
  pub path : Text

pub record FileField : Type 0 where
  pub file_id : ℕ
  pub field_type_id : ℕ
  pub field_value_id : ℕ

pub record Alias : Type 0 where
  pub id : ℕ
  pub field_value_id : ℕ
  pub alias : Text

pub record Db : Type 0 where
  pub storage_providers : List StorageProvider
  pub files : List File
  pub field_types : List FieldType
  pub field_values : List FieldValue
  pub file_fields : List FileField
  pub aliases : List Alias
  pub permissions : List Permission

abbrev pub empty_db : Db
empty_db = record {
  storage_providers = [];
  files = [];
  field_types = [];
  field_values = [];
  file_fields = [];
  aliases = [];
  permissions = [];
}

-- The largest key of a table, and the key of the next row.
module _ {ℓ} {A : Type ℓ} (key : A → ℕ) where
  max_key : List A → ℕ
  max_key [] = 0
  max_key (x ∷ xs) = let m = max_key xs in if ltb m (key x) then key x else m

  unfoldable pub next_key : List A → ℕ
  unfolding max_key
  next_key xs = suc (max_key xs)
