-- ===== src/Api/Calls/Needs.antt =====
-- The rights that the routes of server/internal/api ask for, as a table.
use file_tag_system.Prelude.{ℕ, [], Bool, true, false, Option, none, some, all}
use file_tag_system.Text.{Text}
use file_tag_system.Models.{Action, read, write_meta, manage, admin, Permission}
use file_tag_system.Result.{ok, err}
use file_tag_system.Catalog
use file_tag_system.Perm.Admin.{resource_context}
use file_tag_system.Api.{State, Principal, can, can_system}
use file_tag_system.Api.Query.{parse_id2, normalize_dir}
use file_tag_system.Api.Batches.{Target, BatchRequest}
use file_tag_system.Api.Storages.{PathTag}
use file_tag_system.Api.SignIn.{require_auth}
use file_tag_system.Api.Calls.{
  Call, World, me, disable_two_fa, setup_two_fa, enable_two_fa, list_storages, create_storage,
  update_storage, delete_storage, scan, verify, scan_status, scan_cancel, list_missing, tag_by_path,
  storage_root, list_files, get_file, get_fields, thumbnail, preview, raw, apply_field,
  remove_field, set_thumbnail, list_field_types, create_field_type, update_field_type,
  delete_field_type, list_root_values, list_child_values, create_field_value, update_field_value,
  delete_field_value, find_values, list_aliases, add_alias, delete_alias, merge_value, value_usage,
  unused_values, batch_tags, search_files, list_users, create_user, delete_user, list_groups,
  create_group, delete_group, add_member, remove_member, grant_permission, delete_permission,
  storage_permissions, effective, list_audit,
}

-- What a call asks for. An id or a body that is missing is asked for in vain.
pub data Need : Type 0 where
  anyone : Need
  for_system : Action → Need
  for_storage : Option ℕ → Action → Need
  for_file : Option ℕ → Action → Need
  for_path : Option ℕ → Option PathTag → Need
  for_folder : Text → Text → Need
  for_targets : Option BatchRequest → Need
  for_scope : Text → Need
  to_grant : Option Permission → Need

unfoldable pub need_of : Call → Need
need_of me = anyone
need_of setup_two_fa = anyone
need_of (enable_two_fa body) = anyone
need_of disable_two_fa = anyone
need_of list_storages = anyone
need_of (create_storage body) = for_system manage
need_of (update_storage id body) = for_storage id manage
need_of (delete_storage id) = for_storage id admin
need_of (scan id) = for_storage id manage
need_of (verify id) = for_storage id manage
need_of (scan_status id) = for_storage id read
need_of (scan_cancel id) = for_storage id manage
need_of (list_missing id) = for_storage id read
need_of (tag_by_path id body) = for_path id body
need_of (storage_root id body) = for_storage id manage
need_of (list_files storage_id path) = for_folder storage_id path
need_of (get_file id) = for_file id read
need_of (get_fields id) = for_file id read
need_of (thumbnail id) = for_file id read
need_of (preview id) = for_file id read
need_of (raw id) = for_file id read
need_of (apply_field id body) = for_file id write_meta
need_of (remove_field id ft) = for_file id write_meta
need_of (set_thumbnail id body) = for_file id write_meta
need_of list_field_types = anyone
need_of (create_field_type body) = for_system manage
need_of (update_field_type id body) = for_system manage
need_of (delete_field_type id) = for_system manage
need_of (list_root_values id) = anyone
need_of (list_child_values id) = anyone
need_of (create_field_value body) = for_system manage
need_of (update_field_value id body) = for_system manage
need_of (delete_field_value id dry_run) = for_system manage
need_of (find_values q ft) = anyone
need_of (list_aliases id) = anyone
need_of (add_alias id body) = for_system manage
need_of (delete_alias id) = for_system manage
need_of (merge_value id body) = for_system manage
need_of (value_usage id) = anyone
need_of (unused_values id) = anyone
need_of (batch_tags body) = for_targets body
need_of (search_files sid filters limit cursor) = for_scope sid
need_of list_users = for_system admin
need_of (create_user body) = for_system admin
need_of (delete_user id) = for_system admin
need_of list_groups = for_system admin
need_of (create_group body) = for_system admin
need_of (delete_group id) = for_system admin
need_of (add_member id body) = for_system admin
need_of (remove_member id uid) = for_system admin
need_of (grant_permission body) = to_grant body
need_of (delete_permission id) = for_system admin
need_of (storage_permissions id) = for_storage id admin
need_of (effective user_id rt resource_id) = for_system admin
need_of (list_audit limit) = for_system admin

abbrev pub may_tag : State → Principal → Target → Bool
may_tag s p t = can s p t.storage_id (normalize_dir t.path) write_meta

-- Whether the principal has what is asked for.
unfoldable pub permitted : State → Principal → Need → Bool
permitted s p anyone = true
permitted s p (for_system a) = can_system s p a
permitted s p (for_storage none a) = false
permitted s p (for_storage (some sid) a) = can s p sid [] a
permitted s p (for_file none a) = false
permitted s p (for_file (some id) a) = elim (Catalog.get_file s.db id) [
  | err e ↦ false
  | ok f ↦ can s p f.storage_id f.path a
]
permitted s p (for_path (some sid) (some t)) = can s p sid t.path write_meta
permitted s p (for_path _ _) = false
permitted s p (for_folder storage_id path) = elim (parse_id2 storage_id) [
  | none ↦ false
  | some sid ↦ can s p sid (normalize_dir path) read
]
permitted s p (for_targets none) = false
permitted s p (for_targets (some req)) = all (may_tag s p) req.targets
permitted s p (for_scope storage_id) = elim (parse_id2 storage_id) [
  | none ↦ can_system s p read
  | some sid ↦ can s p sid [] read
]
permitted s p (to_grant none) = false
permitted s p (to_grant (some row)) = elim (resource_context s.db row) [
  | err e ↦ false
  | ok (sid, path) ↦ can s p sid path admin
]

abbrev pub has_need : State → Call → Option Principal → Bool
has_need s call none = false
has_need s call (some p) = permitted s p (need_of call)

-- Whether a request has a principal with the rights of the table.
abbrev pub has_rights : World → State → Option Text → Call → Bool
has_rights w s cookie call = has_need s call (require_auth w.verify_access s cookie)
