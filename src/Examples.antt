-- ===== src/Examples.antt =====
-- A small database for the tests: one storage with two files, one field of one value and one of
-- many, and a tree of three values.
mod Tags
mod Perm
mod Files
mod Auth
mod Scans
mod Server
mod Routes
mod Texts
use file_tag_system.Prelude.{ℕ, List, [], ◌∷◌, Bool, true, false, Option, none, some, In, Never}
use file_tag_system.Text.{Text, codes}
use file_tag_system.Models.{PermSet, Permission, system, storage, file, user}
use file_tag_system.Db.{StorageProvider, File, FieldType, FieldValue, FileField, Db, empty_db}
use file_tag_system.Tags.Tree.{IsTree}

abbrev pub drive : StorageProvider
drive = record { id = 1; name = codes "drive"; type = codes "local"; root_path = codes "/srv" }

abbrev pub entry : ℕ → Text → File
entry id path = record {
  id = id;
  storage_id = 1;
  path = path;
  is_dir = false;
  thumbnail_path = none;
  missing = false;
  size_bytes = none;
  modified_at_fs = none;
  created_at_fs = none;
  last_scanned = none;
}

abbrev pub notes : File
notes = entry 1 (codes "notes")

abbrev pub cat : File
cat = entry 2 (codes "pics/cat.png")

abbrev pub place : FieldType
place = record { id = 1; name = codes "place"; allow_multi = false }

abbrev pub person : FieldType
person = record { id = 2; name = codes "person"; allow_multi = true }

abbrev pub asia : FieldValue
asia = record {
  id = 1;
  field_type_id = 1;
  parent_id = none;
  value = codes "Asia";
  path = codes "/1/";
}

abbrev pub taiwan : FieldValue
taiwan = record {
  id = 2;
  field_type_id = 1;
  parent_id = some 1;
  value = codes "Taiwan";
  path = codes "/1/2/";
}

abbrev pub taipei : FieldValue
taipei = record {
  id = 3;
  field_type_id = 1;
  parent_id = some 2;
  value = codes "Taipei";
  path = codes "/1/2/3/";
}

abbrev pub bare : Db
bare = record empty_db {
  storage_providers = drive ∷ [];
  files = notes ∷ cat ∷ [];
  field_types = place ∷ person ∷ [];
}

abbrev pub with_values : List FieldValue → Db
with_values vs = record bare { field_values = vs }

abbrev pub planted : Db
planted = with_values (asia ∷ taiwan ∷ taipei ∷ [])

pub empty-IsTree : IsTree []
empty-IsTree = record { placed = λ v m. elim m [ ]; distinct = λ v w m k e. elim m [ ] }
