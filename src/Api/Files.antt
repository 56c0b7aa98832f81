-- ===== src/Api/Files.antt =====
-- The handlers of server/internal/api/handlers_files.go, but for previews and the bytes of files,
-- which are in Api.Previews.
pub mod Traversal
use file_tag_system.Prelude.{ℕ, [], ◌∷◌, Option, some}
use file_tag_system.Text.{Text, codes}
use file_tag_system.Models.{read, write_meta}
use file_tag_system.Result.{Error, path_escape, not_exist}
use file_tag_system.Catalog.{set_thumbnail_by_id}
use file_tag_system.Catalog.Lists.{Disk, list_children}
use file_tag_system.Tagging.{apply_tag, remove_field}
use file_tag_system.Tagging.Effective.{effective_fields}
use file_tag_system.Tagging.Governance.{FieldRef}
use file_tag_system.Audit.{tag_apply, tag_remove, number}
use file_tag_system.Api.{
  State, Principal, Reply, answered, Refusal, go, respond, need, given, attempt, ◌>>=◌, ◌>>◌,
  no_content, can, file_for, logged, forbidden, bad_body, missing, internal, server_error,
  not_found_or, children, file_body, fields,
}
use file_tag_system.Api.Query.{parse_id2, normalize_dir}

list_refusal : Error → Refusal
list_refusal path_escape = (400, codes "invalid path")
list_refusal not_exist = missing
list_refusal e = internal

-- `handleListFiles`
unfoldable pub handle_list_files : Disk → State → Principal → Text → Text → Reply × State
unfolding list_refusal normalize_dir parse_id2
handle_list_files disk s p storage_id rel = respond s do
  sid ← given (parse_id2 storage_id) (400, codes "storage_id required")
  need (can s p sid (normalize_dir rel) read) forbidden
  kids ← attempt list_refusal (list_children disk s.db sid rel)
  go (answered 200 (children rel kids), s)

-- `handleGetFile`
unfoldable pub handle_get_file : State → Principal → Option ℕ → Reply × State
handle_get_file s p id = respond s do f ← file_for s p id read; go (answered 200 (file_body f), s)

-- `handleGetFields`
unfoldable pub handle_get_fields : State → Principal → Option ℕ → Reply × State
handle_get_fields s p id = respond s do
  f ← file_for s p id read
  go (answered 200 (fields (effective_fields s.db f.storage_id f.path)), s)

-- `handleApplyField`
unfoldable pub handle_apply_field : State → Principal → Option ℕ → Option FieldRef → Reply × State
handle_apply_field s p id body = respond s do
  f ← file_for s p id write_meta
  req ← given body bad_body
  db ← attempt server_error (apply_tag s.db f.id req.field_type_id req.field_value_id)
  go (
    no_content,
    logged p tag_apply (codes "file") (some f.id)
        (number (codes "field_type_id") req.field_type_id
          ∷ number (codes "field_value_id") req.field_value_id
          ∷ [])
        (record s { db = db }),
  )

-- `handleRemoveField`
unfoldable pub handle_remove_field : State → Principal → Option ℕ → Option ℕ → Reply × State
handle_remove_field s p id ftid = respond s do
  f ← file_for s p id write_meta
  ft ← given ftid (400, codes "bad field type id")
  go (
    no_content,
    logged p tag_remove (codes "file") (some f.id) (number (codes "field_type_id") ft ∷ [])
        (record s { db = remove_field s.db f.id ft }),
  )

-- `handleSetThumbnail`
unfoldable pub handle_set_thumbnail : State → Principal → Option ℕ → Option Text → Reply × State
handle_set_thumbnail s p id body = respond s do
  f ← file_for s p id write_meta
  path ← given body bad_body
  db ← attempt not_found_or (set_thumbnail_by_id s.db f.id path)
  go (no_content, record s { db = db })
