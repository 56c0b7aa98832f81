-- ===== src/Api/Calls/Reads.antt =====
-- The `GET` routes of server/internal/api.
use file_tag_system.Prelude.{
  ℕ, Bool, true, false, ◌≡◌, ◌⊎◌, inl, inr, refl, arith, Option, none, some,
}
use file_tag_system.Text.{Text}
use file_tag_system.Api.{State, Principal}
use file_tag_system.Api.Files.{handle_list_files, handle_get_file, handle_get_fields}
use file_tag_system.Api.Previews.{handle_preview, handle_raw}
use file_tag_system.Api.Previews.Cache.{thumbless, handle_thumbnail-thumbless}
use file_tag_system.Api.Storages.{handle_list_storages, handle_scan_status, handle_missing}
use file_tag_system.Api.Vocabulary.{
  handle_list_field_types, handle_list_root_values, handle_list_child_values, handle_search_values,
  handle_list_aliases, handle_value_usage, handle_unused_values,
}
use file_tag_system.Api.Admin.{
  handle_list_users, handle_list_groups, handle_storage_permissions, handle_list_audit,
  handle_effective,
}
use file_tag_system.Api.Find.{handle_search}
use file_tag_system.Api.SignIn.{require_auth, handle_me}
use file_tag_system.Api.Calls.{
  Call, World, handle, by_principal, serve, me, disable_two_fa, setup_two_fa, enable_two_fa,
  list_storages, create_storage, update_storage, delete_storage, scan, verify, scan_status,
  scan_cancel, list_missing, tag_by_path, storage_root, list_files, get_file, get_fields, thumbnail,
  preview, raw, apply_field, remove_field, set_thumbnail, list_field_types, create_field_type,
  update_field_type, delete_field_type, list_root_values, list_child_values, create_field_value,
  update_field_value, delete_field_value, find_values, list_aliases, add_alias, delete_alias,
  merge_value, value_usage, unused_values, batch_tags, search_files, list_users, create_user,
  delete_user, list_groups, create_group, delete_group, add_member, remove_member, grant_permission,
  delete_permission, storage_permissions, effective, list_audit,
}

-- The calls that come by a `GET` route, the thumbnail included.
unfoldable pub is_get : Call → Bool
is_get me = true
is_get setup_two_fa = false
is_get (enable_two_fa body) = false
is_get disable_two_fa = false
is_get list_storages = true
is_get (create_storage body) = false
is_get (update_storage id body) = false
is_get (delete_storage id) = false
is_get (scan id) = false
is_get (verify id) = false
is_get (scan_status id) = true
is_get (scan_cancel id) = false
is_get (list_missing id) = true
is_get (tag_by_path id body) = false
is_get (storage_root id body) = false
is_get (list_files storage_id path) = true
is_get (get_file id) = true
is_get (get_fields id) = true
is_get (thumbnail id) = true
is_get (preview id) = true
is_get (raw id) = true
is_get (apply_field id body) = false
is_get (remove_field id ft) = false
is_get (set_thumbnail id body) = false
is_get list_field_types = true
is_get (create_field_type body) = false
is_get (update_field_type id body) = false
is_get (delete_field_type id) = false
is_get (list_root_values id) = true
is_get (list_child_values id) = true
is_get (create_field_value body) = false
is_get (update_field_value id body) = false
is_get (delete_field_value id dry_run) = false
is_get (find_values q ft) = true
is_get (list_aliases id) = true
is_get (add_alias id body) = false
is_get (delete_alias id) = false
is_get (merge_value id body) = false
is_get (value_usage id) = true
is_get (unused_values id) = true
is_get (batch_tags body) = false
is_get (search_files sid filters limit cursor) = true
is_get list_users = true
is_get (create_user body) = false
is_get (delete_user id) = false
is_get list_groups = true
is_get (create_group body) = false
is_get (delete_group id) = false
is_get (add_member id body) = false
is_get (remove_member id uid) = false
is_get (grant_permission body) = false
is_get (delete_permission id) = false
is_get (storage_permissions id) = true
is_get (effective user_id rt resource_id) = true
is_get (list_audit limit) = true

-- The state is as before, or the call asks for a thumbnail and it is as before but for thumbnails.
abbrev pub Reads : Call → State → State → Type 0
Reads call s after =
    (after ≡ s) ⊎ ((id : Option ℕ) × (call ≡ thumbnail id) × (thumbless after ≡ thumbless s))

handle-reads :
    (w : World) (s : State) (p : Principal) (call : Call)
    → is_get call ≡ true
    → Reads call s (handle w s p call).1
unfolding is_get handle handle_preview handle_raw handle_effective handle_get_fields handle_get_file
    handle_list_aliases handle_list_audit handle_list_child_values handle_list_field_types
    handle_list_files handle_list_groups handle_list_root_values handle_list_storages
    handle_list_users handle_me handle_missing handle_scan_status handle_search handle_search_values
    handle_storage_permissions handle_unused_values handle_value_usage
handle-reads w s p me e = inl (ground arith)
handle-reads w s p setup_two_fa e = cc
handle-reads w s p (enable_two_fa body) e = cc
handle-reads w s p disable_two_fa e = cc
handle-reads w s p list_storages e = inl (ground arith)
handle-reads w s p (create_storage body) e = cc
handle-reads w s p (update_storage id body) e = cc
handle-reads w s p (delete_storage id) e = cc
handle-reads w s p (scan id) e = cc
handle-reads w s p (verify id) e = cc
handle-reads w s p (scan_status id) e = inl (ground arith)
handle-reads w s p (scan_cancel id) e = cc
handle-reads w s p (list_missing id) e = inl (ground arith)
handle-reads w s p (tag_by_path id body) e = cc
handle-reads w s p (storage_root id body) e = cc
handle-reads w s p (list_files storage_id path) e = inl (ground arith)
handle-reads w s p (get_file id) e = inl (ground arith)
handle-reads w s p (get_fields id) e = inl (ground arith)
handle-reads w s p (thumbnail id) e = inr (id, refl, handle_thumbnail-thumbless w.viewer s p id)
handle-reads w s p (preview id) e = inl (ground arith)
handle-reads w s p (raw id) e = inl (ground arith)
handle-reads w s p (apply_field id body) e = cc
handle-reads w s p (remove_field id ft) e = cc
handle-reads w s p (set_thumbnail id body) e = cc
handle-reads w s p list_field_types e = inl (ground arith)
handle-reads w s p (create_field_type body) e = cc
handle-reads w s p (update_field_type id body) e = cc
handle-reads w s p (delete_field_type id) e = cc
handle-reads w s p (list_root_values id) e = inl (ground arith)
handle-reads w s p (list_child_values id) e = inl (ground arith)
handle-reads w s p (create_field_value body) e = cc
handle-reads w s p (update_field_value id body) e = cc
handle-reads w s p (delete_field_value id dry_run) e = cc
handle-reads w s p (find_values q ft) e = inl (ground arith)
handle-reads w s p (list_aliases id) e = inl (ground arith)
handle-reads w s p (add_alias id body) e = cc
handle-reads w s p (delete_alias id) e = cc
handle-reads w s p (merge_value id body) e = cc
handle-reads w s p (value_usage id) e = inl (ground arith)
handle-reads w s p (unused_values id) e = inl (ground arith)
handle-reads w s p (batch_tags body) e = cc
handle-reads w s p (search_files sid filters limit cursor) e = inl (ground arith)
handle-reads w s p list_users e = inl (ground arith)
handle-reads w s p (create_user body) e = cc
handle-reads w s p (delete_user id) e = cc
handle-reads w s p list_groups e = inl (ground arith)
handle-reads w s p (create_group body) e = cc
handle-reads w s p (delete_group id) e = cc
handle-reads w s p (add_member id body) e = cc
handle-reads w s p (remove_member id uid) e = cc
handle-reads w s p (grant_permission body) e = cc
handle-reads w s p (delete_permission id) e = cc
handle-reads w s p (storage_permissions id) e = inl (ground arith)
handle-reads w s p (effective user_id rt resource_id) e = inl (ground arith)
handle-reads w s p (list_audit limit) e = inl (ground arith)

by_principal-reads :
    (w : World) (s : State) (call : Call) (o : Option Principal)
    → is_get call ≡ true
    → Reads call s (by_principal w s call o).1
unfolding by_principal
by_principal-reads w s call none e = inl refl
by_principal-reads w s call (some p) e = handle-reads w s p call e

-- A request to one of the modelled `GET` routes changes nothing, whatever its outcome, but for the
-- request for a thumbnail: that one changes at most the cache of thumbnails and the paths of
-- thumbnails in the rows of files.
pub serve-reads :
    (w : World) (s : State) (cookie : Option Text) (call : Call)
    → is_get call ≡ true
    → Reads call s (serve w s cookie call).1
unfolding serve
serve-reads w s cookie call e =
    by_principal-reads w s call (require_auth w.verify_access s cookie) e
