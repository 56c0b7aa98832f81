-- ===== src/Catalog/Lists.antt =====
-- The lists of server/internal/catalog/catalog.go, and the provider that a storage is served by.
use file_tag_system.Prelude.{ℕ, List, ◌&&◌, ◌==◌, select}
use file_tag_system.Text.{Text, codes, text_eq}
use file_tag_system.Text.Order.{sort_by}
use file_tag_system.Result.{Result, ok, unsupported, guard, ◌>>=◌, ◌>>◌}
use file_tag_system.Db.{StorageProvider, File, Db}
use file_tag_system.Catalog.{FileInfo, Child, get_storage, join_children}

-- `ListStorages`; the table is in the order of its keys.
abbrev pub list_storages : Db → List StorageProvider
list_storages db = db.storage_providers

-- `ListMissing`
unfoldable pub list_missing : Db → ℕ → List File
list_missing db sid =
    sort_by (λ (f : File). f.path)
      (select (λ (f : File). f.storage_id == sid && f.missing) db.files)

-- What the server asks of the disk below the root of a storage: `Stat` and `ListDir`.
pub record Disk : Type 0 where
  pub stat : Text → Text → Result FileInfo
  pub list_dir : Text → Text → Result (List FileInfo)

-- `Provider` with `buildProvider`: the root by which the storage is served.
unfoldable pub provider : Db → ℕ → Result Text
provider db sid = do
  st ← get_storage db sid
  guard (text_eq st.type (codes "local")) unsupported
  ok st.root_path

-- `ListChildren`
unfoldable pub list_children : Disk → Db → ℕ → Text → Result (List Child)
unfolding provider join_children
list_children disk db sid path = do
  root ← provider db sid
  entries ← disk.list_dir root path
  ok (join_children db sid entries)
