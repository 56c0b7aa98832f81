-- ===== src/Api/Calls.antt =====
-- The routes of server/internal/api/server.go that ask for a principal (`authed`): a request as a
-- value, and the handler it is sent to. `handleArchive` is left out.
pub mod Needs
pub mod Stops
pub mod Access
pub mod Trees
pub mod Reads
use file_tag_system.Prelude.{ℕ, List, Bool, Option, none, some}
use file_tag_system.Text.{Text}
use file_tag_system.Models.{ResourceType, Permission}
use file_tag_system.Db.{Db}
use file_tag_system.Catalog.Lists.{Disk}
use file_tag_system.Tagging.Governance.{FieldRef}
use file_tag_system.Auth.Login.{Crypto}
use file_tag_system.Api.{State, Principal, Reply, failed, unauthorized}
use file_tag_system.Api.Files.{
  handle_list_files, handle_get_file, handle_get_fields, handle_apply_field, handle_remove_field,
  handle_set_thumbnail,
}
use file_tag_system.Api.Previews.{Viewer, handle_preview, handle_raw, handle_thumbnail}
use file_tag_system.Api.Storages.{
  handle_list_storages, NewStorage, handle_create_storage, StorageChange, handle_update_storage,
  handle_delete_storage, handle_scan, handle_scan_status, handle_scan_cancel, PathTag,
  handle_tag_by_path, handle_storage_root, handle_missing,
}
use file_tag_system.Api.Vocabulary.{
  handle_list_field_types, TypeFields, handle_create_field_type, handle_update_field_type,
  handle_delete_field_type, handle_list_root_values, handle_list_child_values, NewValue,
  handle_create_field_value, ValueChange, handle_update_field_value, handle_delete_field_value,
  handle_search_values, handle_list_aliases, handle_add_alias, handle_delete_alias,
  handle_merge_value, handle_value_usage, handle_unused_values,
}
use file_tag_system.Api.Batches.{BatchRequest, handle_batch_tags}
use file_tag_system.Api.Admin.{
  handle_list_users, NewUser, handle_create_user, handle_delete_user, handle_list_groups,
  handle_create_group, handle_delete_group, handle_add_member, handle_remove_member,
  handle_grant_permission, handle_delete_permission, handle_storage_permissions, handle_list_audit,
  handle_effective,
}
use file_tag_system.Api.Find.{FilterText, handle_search}
use file_tag_system.Api.SignIn.{
  require_auth, handle_me, handle_two_fa_setup, handle_two_fa_enable, handle_two_fa_disable,
}

-- What a request meets outside the server: the disk, the libraries, the time and what is drawn.
pub record World : Type 0 where
  pub disk : Disk
  pub viewer : Viewer
  pub is_space : ℕ → Bool
  pub fts : Db → Text → ℕ → Bool
  pub crypto : Crypto
  pub hash_password : Text → Option Text
  pub verify_access : Text → Option ℕ
  pub now : ℕ
  pub secret : Text
  pub encrypted_secret : Text
  pub drawn_codes : List Text

pub data Call : Type 0 where
  me disable_two_fa setup_two_fa : Call
  enable_two_fa : Option Text → Call
  list_storages : Call
  create_storage : Option NewStorage → Call
  update_storage : Option ℕ → Option StorageChange → Call
  delete_storage scan verify scan_status scan_cancel list_missing : Option ℕ → Call
  tag_by_path : Option ℕ → Option PathTag → Call
  storage_root : Option ℕ → Option Text → Call
  list_files : Text → Text → Call
  get_file get_fields thumbnail preview raw : Option ℕ → Call
  apply_field : Option ℕ → Option FieldRef → Call
  remove_field : Option ℕ → Option ℕ → Call
  set_thumbnail : Option ℕ → Option Text → Call
  list_field_types : Call
  create_field_type : Option TypeFields → Call
  update_field_type : Option ℕ → Option TypeFields → Call
  delete_field_type list_root_values list_child_values : Option ℕ → Call
  create_field_value : Option NewValue → Call
  update_field_value : Option ℕ → Option ValueChange → Call
  delete_field_value : Option ℕ → Text → Call
  find_values : Text → Text → Call
  list_aliases : Option ℕ → Call
  add_alias : Option ℕ → Option Text → Call
  delete_alias : Option ℕ → Call
  merge_value : Option ℕ → Option ℕ → Call
  value_usage unused_values : Option ℕ → Call
  batch_tags : Option BatchRequest → Call
  search_files : Text → List FilterText → Text → Text → Call
  list_users : Call
  create_user : Option NewUser → Call
  delete_user : Option ℕ → Call
  list_groups : Call
  create_group : Option Text → Call
  delete_group : Option ℕ → Call
  add_member remove_member : Option ℕ → Option ℕ → Call
  grant_permission : Option Permission → Call
  delete_permission storage_permissions : Option ℕ → Call
  effective : Text → ResourceType → Text → Call
  list_audit : Text → Call

-- The table of `routes`.
unfoldable pub handle : World → State → Principal → Call → Reply × State
handle w s p me = handle_me s p
handle w s p setup_two_fa = handle_two_fa_setup w.secret w.encrypted_secret s p
handle w s p (enable_two_fa body) = handle_two_fa_enable w.crypto w.drawn_codes s p body
handle w s p disable_two_fa = handle_two_fa_disable s p
handle w s p list_storages = handle_list_storages s p
handle w s p (create_storage body) = handle_create_storage s p body
handle w s p (update_storage id body) = handle_update_storage s p id body
handle w s p (delete_storage id) = handle_delete_storage s p id
handle w s p (scan id) = handle_scan w.now s p id
handle w s p (verify id) = handle_scan w.now s p id
handle w s p (scan_status id) = handle_scan_status s p id
handle w s p (scan_cancel id) = handle_scan_cancel s p id
handle w s p (list_missing id) = handle_missing s p id
handle w s p (tag_by_path id body) = handle_tag_by_path w.disk s p id body
handle w s p (storage_root id body) = handle_storage_root s p id body
handle w s p (list_files storage_id path) = handle_list_files w.disk s p storage_id path
handle w s p (get_file id) = handle_get_file s p id
handle w s p (get_fields id) = handle_get_fields s p id
handle w s p (thumbnail id) = handle_thumbnail w.viewer s p id
handle w s p (preview id) = handle_preview w.viewer s p id
handle w s p (raw id) = handle_raw w.viewer s p id
handle w s p (apply_field id body) = handle_apply_field s p id body
handle w s p (remove_field id ft) = handle_remove_field s p id ft
handle w s p (set_thumbnail id body) = handle_set_thumbnail s p id body
handle w s p list_field_types = handle_list_field_types s
handle w s p (create_field_type body) = handle_create_field_type s p body
handle w s p (update_field_type id body) = handle_update_field_type s p id body
handle w s p (delete_field_type id) = handle_delete_field_type s p id
handle w s p (list_root_values id) = handle_list_root_values s id
handle w s p (list_child_values id) = handle_list_child_values s id
handle w s p (create_field_value body) = handle_create_field_value s p body
handle w s p (update_field_value id body) = handle_update_field_value s p id body
handle w s p (delete_field_value id dry_run) = handle_delete_field_value s p id dry_run
handle w s p (find_values q ft) = handle_search_values w.is_space w.fts s q ft
handle w s p (list_aliases id) = handle_list_aliases s id
handle w s p (add_alias id body) = handle_add_alias s p id body
handle w s p (delete_alias id) = handle_delete_alias s p id
handle w s p (merge_value id body) = handle_merge_value s p id body
handle w s p (value_usage id) = handle_value_usage s id
handle w s p (unused_values id) = handle_unused_values s id
handle w s p (batch_tags body) = handle_batch_tags w.disk s p body
handle w s p (search_files sid filters limit cursor) = handle_search s p sid filters limit cursor
handle w s p list_users = handle_list_users s p
handle w s p (create_user body) = handle_create_user w.hash_password s p body
handle w s p (delete_user id) = handle_delete_user s p id
handle w s p list_groups = handle_list_groups s p
handle w s p (create_group body) = handle_create_group s p body
handle w s p (delete_group id) = handle_delete_group s p id
handle w s p (add_member id body) = handle_add_member s p id body
handle w s p (remove_member id uid) = handle_remove_member s p id uid
handle w s p (grant_permission body) = handle_grant_permission s p body
handle w s p (delete_permission id) = handle_delete_permission s p id
handle w s p (storage_permissions id) = handle_storage_permissions s p id
handle w s p (effective user_id rt resource_id) = handle_effective s p user_id rt resource_id
handle w s p (list_audit limit) = handle_list_audit s p limit

-- `authed`
unfoldable pub by_principal : World → State → Call → Option Principal → Reply × State
unfolding handle
by_principal w s call none = (failed unauthorized.0 unauthorized.1, s)
by_principal w s call (some p) = handle w s p call

-- A request with its access cookie.
unfoldable pub serve : World → State → Option Text → Call → Reply × State
unfolding by_principal require_auth
serve w s cookie call = by_principal w s call (require_auth w.verify_access s cookie)
