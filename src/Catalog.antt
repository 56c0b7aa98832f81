-- ===== src/Catalog.antt =====
-- server/internal/catalog/catalog.go: storage sources and the rows of the `files` table. A file's
-- live metadata (`storage.FileInfo`) comes from the provider; a zero time is `none`.
pub mod Materialize
pub mod Cleanup
pub mod Lists
use file_tag_system.Prelude.{
  ℕ, List, [], ◌∷◌, ◌++◌, Bool, true, false, ◌&&◌, ◌==◌, not, Option, none, some, any, find, select,
  map, is_some_of, if◌then◌else◌,
}
use file_tag_system.Text.{Text, text_eq}
use file_tag_system.Models.{ResourceType, system, storage, file, Permission}
use file_tag_system.Result.{Result, ok, err, not_found, constraint, found, guard, ◌>>=◌, ◌>>◌}
use file_tag_system.Db.{StorageProvider, File, Db, next_key}
use file_tag_system.Db.Cascade.{has_storage, has_file, cascade}

-- storage/storage.go: `FileInfo`
pub record FileInfo : Type 0 where
  pub path : Text
  pub is_dir : Bool
  pub size : ℕ
  pub modified : Option Text

-- `CreateStorage`
unfoldable pub create_storage : Db → Text → Text → Text → ℕ × Db
create_storage db name typ root =
    let id = next_key (λ (s : StorageProvider). s.id) db.storage_providers in
    (
      id,
      record db {
        storage_providers =
            db.storage_providers
            ++ record { id = id; name = name; type = typ; root_path = root } ∷ [];
      },
    )

abbrev pub storage_of : Db → ℕ → Option StorageProvider
storage_of db id = find (λ (s : StorageProvider). s.id == id) db.storage_providers

-- `GetStorage`
abbrev pub get_storage : Db → ℕ → Result StorageProvider
get_storage db id = found not_found (storage_of db id)

change_storage : Db → ℕ → (StorageProvider → StorageProvider) → Result Db
change_storage db id f = do
  guard (has_storage db.storage_providers id) not_found
  ok (record db {
    storage_providers =
        map (λ (s : StorageProvider). if s.id == id then f s else s) db.storage_providers;
  })

-- `UpdateStorageRoot`
unfoldable pub update_storage_root : Db → ℕ → Text → Result Db
unfolding change_storage
update_storage_root db id root = change_storage db id (λ s. record s { root_path = root })

-- `UpdateStorage`
unfoldable pub update_storage : Db → ℕ → Text → Text → Result Db
unfolding change_storage
update_storage db id name root =
    change_storage db id (λ s. record s { name = name; root_path = root })

-- The tests of the two `DELETE FROM permissions` of `DeleteStorage`.
on_file : List File → ℕ → ResourceType → Option ℕ → Bool
on_file files id file rid = any (λ (f : File). f.storage_id == id && is_some_of rid f.id) files
on_file files id system rid = false
on_file files id storage rid = false
on_file files id (ResourceType.other t) rid = false

on_storage : ℕ → ResourceType → Option ℕ → Bool
on_storage id storage rid = is_some_of rid id
on_storage id system rid = false
on_storage id file rid = false
on_storage id (ResourceType.other t) rid = false

unfoldable pub is_of_storage : List File → ℕ → Permission → Bool
unfolding on_file on_storage
is_of_storage files id p =
    if on_file files id p.resource_type p.resource_id
    then true
    else on_storage id p.resource_type p.resource_id

-- `DeleteStorage`
unfoldable pub delete_storage : Db → ℕ → Result Db
delete_storage db id = do
  guard (has_storage db.storage_providers id) not_found
  ok (
      cascade (record db {
        permissions = select (λ (p : Permission). not (is_of_storage db.files id p)) db.permissions;
        storage_providers = select (λ (s : StorageProvider). not (s.id == id)) db.storage_providers;
      }))

abbrev pub at_path : ℕ → Text → File → Bool
at_path sid path f = f.storage_id == sid && text_eq f.path path

size_of : FileInfo → Option ℕ
size_of fi = if fi.is_dir then none else some fi.size

unfoldable pub new_file : Db → ℕ → FileInfo → File
unfolding size_of
new_file db sid fi = record {
  id = next_key (λ (f : File). f.id) db.files;
  storage_id = sid;
  path = fi.path;
  is_dir = fi.is_dir;
  thumbnail_path = none;
  missing = false;
  size_bytes = size_of fi;
  modified_at_fs = fi.modified;
  created_at_fs = none;
  last_scanned = none;
}

-- The `INSERT … ON CONFLICT(storage_id, path) DO NOTHING` of `materializeTx`.
unfoldable pub insert_file : Db → ℕ → FileInfo → Result Db
insert_file db sid fi = elim (find (at_path sid fi.path) db.files) [
  | some f ↦ ok db
  | none ↦ do
    guard (has_storage db.storage_providers sid) constraint
    ok (record db { files = db.files ++ new_file db sid fi ∷ [] })
]

-- `materializeTx`, and `Materialize`
unfoldable pub materialize : Db → ℕ → FileInfo → Result (ℕ × Db)
unfolding insert_file
materialize db sid fi = do
  db' ← insert_file db sid fi
  f ← found not_found (find (at_path sid fi.path) db'.files)
  ok (f.id, db')

-- `GetFile`, `GetFileByPath`
abbrev pub get_file : Db → ℕ → Result File
get_file db id = found not_found (find (λ (f : File). f.id == id) db.files)

abbrev pub get_file_by_path : Db → ℕ → Text → Result File
get_file_by_path db sid path = found not_found (find (at_path sid path) db.files)

abbrev pub thumb : ℕ → Text → File → File
thumb id path f = if f.id == id then record f { thumbnail_path = some path } else f

-- `SetThumbnail`
unfoldable pub set_thumbnail : Db → ℕ → FileInfo → Text → Result (ℕ × Db)
set_thumbnail db sid fi path = do
  r ← materialize db sid fi
  ok (r.0, record r.1 { files = map (thumb r.0 path) r.1.files })

-- `SetThumbnailByID`
unfoldable pub set_thumbnail_by_id : Db → ℕ → Text → Result Db
set_thumbnail_by_id db id path = do
  guard (has_file db.files id) not_found
  ok (record db { files = map (thumb id path) db.files })

-- A live entry with the row of its file, if it has one.
pub record Child : Type 0 where
  pub info : FileInfo
  pub id : Option ℕ
  pub thumbnail_path : Option Text

child_of : FileInfo → Option File → Child
child_of e none = record { info = e; id = none; thumbnail_path = none }
child_of e (some f) = record { info = e; id = some f.id; thumbnail_path = f.thumbnail_path }

-- The join of `ListChildren` with `filesByPaths`, over the entries that the provider listed.
unfoldable pub join_children : Db → ℕ → List FileInfo → List Child
unfolding child_of
join_children db sid entries =
    map (λ (e : FileInfo). child_of e (find (at_path sid e.path) db.files)) entries
