-- ===== src/Api/Storages.antt =====
-- server/internal/api/handlers_storage.go, and the handlers of a storage's root, verification and
-- missing files of handlers_governance.go. The start of a scan is the job's entry; the scanner is a
-- process of its own.
use file_tag_system.Prelude.{ℕ, [], ◌∷◌, ◌||◌, not, Option, none, some, select, if◌then◌else◌}
use file_tag_system.Text.{Text, codes, text_eq}
use file_tag_system.Models.{read, write_meta, manage, admin}
use file_tag_system.Result.{Result, ok, err, Error, not_found}
use file_tag_system.Db.{StorageProvider}
use file_tag_system.Catalog.{
  get_storage, create_storage, update_storage, update_storage_root, delete_storage,
}
use file_tag_system.Catalog.Lists.{Disk, list_storages, list_missing, provider}
use file_tag_system.Ingest.Jobs.{JobManager, start, cancel}
use file_tag_system.Tagging.{apply_by_path}
use file_tag_system.Audit.{tag_apply, storage_del, number, string}
use file_tag_system.Api.{
  State, Principal, Reply, answered, Refusal, go, respond, need, given, attempt, ◌>>=◌, ◌>>◌,
  no_content, can, can_system, require_storage, logged, forbidden, bad_id, bad_body, missing,
  server_error, not_found_or, always, kept, storages, storage_body, job_id, job_status, file_id,
  files_body,
}

-- `handleListStorages`
unfoldable pub handle_list_storages : State → Principal → Reply × State
handle_list_storages s p = (
  answered 200
      (storages (select (λ (st : StorageProvider). can s p st.id [] read) (list_storages s.db))),
  s,
)

pub record NewStorage : Type 0 where
  pub name : Text
  pub type : Text
  pub root_path : Text

or_local : Text → Text
or_local t = if text_eq t [] then codes "local" else t

-- `handleCreateStorage`; the new row is read again for the reply.
unfoldable pub handle_create_storage : State → Principal → Option NewStorage → Reply × State
unfolding or_local
handle_create_storage s p body = respond s do
  need (can_system s p manage) forbidden
  req ← given body bad_body
  need (text_eq (or_local req.type) (codes "local")) (400, codes "unsupported storage type")
  need (not (text_eq req.name [] || text_eq req.root_path []))
      (400, codes "name and root_path are required")
  let (id, db) = create_storage s.db req.name (or_local req.type) req.root_path
  go (answered 201 (storage_body (kept (get_storage db id))), record s { db = db })

-- The fields of a storage that a request changes.
pub record StorageChange : Type 0 where
  pub name : Option Text
  pub root_path : Option Text

or_current : Text → Option Text → Text
or_current t none = t
or_current t (some u) = u

-- `handleUpdateStorage`
unfoldable pub handle_update_storage :
    State → Principal → Option ℕ → Option StorageChange → Reply × State
unfolding or_current
handle_update_storage s p id body = respond s do
  sid ← require_storage s p id manage
  cur ← attempt not_found_or (get_storage s.db sid)
  req ← given body bad_body
  db ← attempt server_error (
      update_storage s.db sid (or_current cur.name req.name)
        (or_current cur.root_path req.root_path))
  go (answered 200 (storage_body (kept (get_storage db sid))), record s { db = db })

-- `handleDeleteStorage`
unfoldable pub handle_delete_storage : State → Principal → Option ℕ → Reply × State
handle_delete_storage s p id = respond s do
  sid ← require_storage s p id admin
  db ← attempt not_found_or (delete_storage s.db sid)
  go (no_content, logged p storage_del (codes "storage") (some sid) [] (record s { db = db }))

-- `triggerScan`
unfoldable pub trigger_scan : State → ℕ → ℕ → Result JobManager
trigger_scan s now sid = elim (get_storage s.db sid) [
  | err e ↦ err e
  | ok st ↦ start s.jobs sid now
]

scan_refusal : Error → Refusal
scan_refusal not_found = missing
scan_refusal e = (409, codes "a scan is already running")

-- `handleScan` and `handleVerify`
unfoldable pub handle_scan : ℕ → State → Principal → Option ℕ → Reply × State
unfolding trigger_scan scan_refusal
handle_scan now s p id = respond s do
  sid ← require_storage s p id manage
  jobs ← attempt scan_refusal (trigger_scan s now sid)
  go (answered 202 (job_id sid), record s { jobs = jobs })

-- `handleScanStatus`; without a job the reply is the idle state.
unfoldable pub handle_scan_status : State → Principal → Option ℕ → Reply × State
handle_scan_status s p id =
    respond s do sid ← require_storage s p id read; go (answered 200 (job_status (s.jobs sid)), s)

-- `handleScanCancel`
unfoldable pub handle_scan_cancel : State → Principal → Option ℕ → Reply × State
unfolding cancel
handle_scan_cancel s p id = respond s do
  sid ← require_storage s p id manage
  let (was_running, jobs) = cancel s.jobs sid
  need was_running (400, codes "no scan running")
  go (no_content, record s { jobs = jobs })

pub record PathTag : Type 0 where
  pub path : Text
  pub field_type_id : ℕ
  pub field_value_id : ℕ

-- `handleTagByPath`
unfoldable pub handle_tag_by_path :
    Disk → State → Principal → Option ℕ → Option PathTag → Reply × State
handle_tag_by_path disk s p id body = respond s do
  sid ← given id bad_id
  req ← given body bad_body
  need (can s p sid req.path write_meta) forbidden
  root ← attempt not_found_or (provider s.db sid)
  fi ← attempt (always (400, codes "path not found")) (disk.stat root req.path)
  done ← attempt server_error (apply_by_path s.db sid fi req.field_type_id req.field_value_id)
  go (
    answered 200 (file_id done.0),
    logged p tag_apply (codes "file") (some done.0)
        (number (codes "field_type_id") req.field_type_id
          ∷ number (codes "field_value_id") req.field_value_id
          ∷ string (codes "path") req.path
          ∷ [])
        (record s { db = done.1 }),
  )

-- `handleStorageRoot`
unfoldable pub handle_storage_root : State → Principal → Option ℕ → Option Text → Reply × State
handle_storage_root s p id body = respond s do
  sid ← require_storage s p id manage
  root ← given body bad_body
  need (not (text_eq root [])) (400, codes "root_path required")
  db ← attempt not_found_or (update_storage_root s.db sid root)
  go (no_content, record s { db = db })

-- `handleMissing`
unfoldable pub handle_missing : State → Principal → Option ℕ → Reply × State
handle_missing s p id =
    respond s do
      sid ← require_storage s p id read
      go (answered 200 (files_body (list_missing s.db sid)), s)
