-- ===== src/Api/Calls/Access.antt =====
-- A request without the rights of the table is refused, route by route.
use file_tag_system.Prelude.{ℕ, [], false, ◌≡◌, refl, Option, none, some}
use file_tag_system.Text.{Text, codes}
use file_tag_system.Models.{read}
use file_tag_system.Catalog.Lists.{Disk}
use file_tag_system.Api.{
  State, Principal, need, forbidden, bad_id, bad_body, unauthorized, can, can_system,
}
use file_tag_system.Api.Query.{parse_id2, normalize_dir}
use file_tag_system.Api.Batches.{BatchRequest, has_targets}
use file_tag_system.Api.Previews.{handle_preview, handle_raw, handle_thumbnail}
use file_tag_system.Api.Storages.{PathTag}
use file_tag_system.Api.Files.{
  handle_list_files, handle_get_file, handle_get_fields, handle_apply_field, handle_remove_field,
  handle_set_thumbnail,
}
use file_tag_system.Api.Storages.{
  handle_list_storages, handle_create_storage, handle_update_storage, handle_delete_storage,
  handle_scan, handle_scan_status, handle_scan_cancel, handle_tag_by_path, handle_storage_root,
  handle_missing,
}
use file_tag_system.Api.Vocabulary.{
  handle_list_field_types, handle_create_field_type, handle_update_field_type,
  handle_delete_field_type, handle_list_root_values, handle_list_child_values,
  handle_create_field_value, handle_update_field_value, handle_delete_field_value,
  handle_search_values, handle_list_aliases, handle_add_alias, handle_delete_alias,
  handle_merge_value, handle_value_usage, handle_unused_values,
}
use file_tag_system.Api.Batches.{handle_batch_tags}
use file_tag_system.Api.Admin.{
  handle_list_users, handle_create_user, handle_delete_user, handle_list_groups,
  handle_create_group, handle_delete_group, handle_add_member, handle_remove_member,
  handle_grant_permission, handle_delete_permission, handle_storage_permissions, handle_list_audit,
  handle_effective,
}
use file_tag_system.Api.Find.{handle_search, scope}
use file_tag_system.Api.SignIn.{
  require_auth, handle_me, handle_two_fa_setup, handle_two_fa_enable, handle_two_fa_disable,
}
use file_tag_system.Api.Calls.{
  Call, World, handle, by_principal, serve, me, disable_two_fa, setup_two_fa, enable_two_fa,
  list_storages, create_storage, update_storage, delete_storage, scan, verify, scan_status,
  scan_cancel, list_missing, tag_by_path, storage_root, list_files, get_file, get_fields, thumbnail,
  preview, raw, apply_field, remove_field, set_thumbnail, list_field_types, create_field_type,
  update_field_type, delete_field_type, list_root_values, list_child_values, create_field_value,
  update_field_value, delete_field_value, find_values, list_aliases, add_alias, delete_alias,
  merge_value, value_usage, unused_values, batch_tags, search_files, list_users, create_user,
  delete_user, list_groups, create_group, delete_group, add_member, remove_member, grant_permission,
  delete_permission, storage_permissions, effective, list_audit,
}
use file_tag_system.Api.Calls.Needs.{
  for_path, for_folder, for_targets, need_of, permitted, has_need, has_rights,
}
use file_tag_system.Api.Calls.Stops.{
  Refused, Stops, respond-Stops, >>=-Stops, go-Stops, given-Stops, guarded-Stops,
  require_storage-Stops, file_for-Stops, target_ops-Stops, grant_call-Stops,
}

tag_by_path-Refused :
    (disk : Disk) (s : State) (p : Principal) (id : Option ℕ) (body : Option PathTag)
    → permitted s p (for_path id body) ≡ false
    → Refused s (handle_tag_by_path disk s p id body)
unfolding handle_tag_by_path permitted
tag_by_path-Refused disk s p none body e = respond-Stops s _ (bad_id, refl)
tag_by_path-Refused disk s p (some sid) none e = respond-Stops s _ (bad_body, refl)
tag_by_path-Refused disk s p (some sid) (some t) e = respond-Stops s _ (guarded-Stops _ _ _ e)

list_files-Refused :
    (disk : Disk) (s : State) (p : Principal) (storage_id path : Text)
    → permitted s p (for_folder storage_id path) ≡ false
    → Refused s (handle_list_files disk s p storage_id path)
unfolding handle_list_files permitted
list_files-Refused disk s p storage_id path e = respond-Stops s _ (
    given-Stops _ (parse_id2 storage_id) (λ sid. can s p sid (normalize_dir path) read) _ e
      (λ sid h. guarded-Stops _ _ _ h))

batch_tags-Refused :
    (disk : Disk) (s : State) (p : Principal) (body : Option BatchRequest)
    → permitted s p (for_targets body) ≡ false
    → Refused s (handle_batch_tags disk s p body)
unfolding handle_batch_tags permitted has_targets
batch_tags-Refused disk s p none e = respond-Stops s _ (bad_body, refl)
batch_tags-Refused disk s p (some req) e = respond-Stops s _ (
    go-Stops (need (has_targets req.targets) (400, codes "no targets")) _
      (λ _ _. >>=-Stops _ _ (target_ops-Stops disk s p req req.targets e)))

scope-Stops :
    (s : State) (p : Principal) (sid : Option ℕ)
    → elim sid [ none ↦ can_system s p read | some n ↦ can s p n [] read ] ≡ false
    → Stops (scope s p sid)
unfolding scope
scope-Stops s p none e = guarded-Stops _ forbidden _ e
scope-Stops s p (some sid) e = guarded-Stops _ forbidden _ e

-- A call that the principal may not make is refused, and leaves the state as it was.
handle-Refused :
    (w : World) (s : State) (p : Principal) (call : Call)
    → permitted s p (need_of call) ≡ false
    → Refused s (handle w s p call)
unfolding handle need_of permitted handle_add_alias handle_add_member handle_apply_field
    handle_batch_tags handle_create_field_type handle_create_field_value handle_create_group
    handle_create_storage handle_create_user handle_delete_alias handle_delete_field_type
    handle_delete_field_value handle_delete_group handle_delete_permission handle_delete_storage
    handle_delete_user handle_effective handle_get_fields handle_get_file handle_grant_permission
    handle_list_aliases handle_list_audit handle_list_child_values handle_list_field_types
    handle_list_files handle_list_groups handle_list_root_values handle_list_storages
    handle_list_users handle_me handle_merge_value handle_missing handle_preview handle_raw
    handle_thumbnail handle_remove_field handle_remove_member handle_scan handle_scan_cancel
    handle_scan_status handle_search handle_search_values handle_set_thumbnail
    handle_storage_permissions handle_storage_root handle_tag_by_path handle_two_fa_disable
    handle_two_fa_enable handle_two_fa_setup handle_unused_values handle_update_field_type
    handle_update_field_value handle_update_storage handle_value_usage
handle-Refused w s p me e = absurd cc
handle-Refused w s p setup_two_fa e = absurd cc
handle-Refused w s p (enable_two_fa body) e = absurd cc
handle-Refused w s p disable_two_fa e = absurd cc
handle-Refused w s p list_storages e = absurd cc
handle-Refused w s p (create_storage body) e = respond-Stops s _ (guarded-Stops _ _ _ e)
handle-Refused w s p (update_storage id body) e =
    respond-Stops s _ (>>=-Stops _ _ (require_storage-Stops s p id _ e))
handle-Refused w s p (delete_storage id) e =
    respond-Stops s _ (>>=-Stops _ _ (require_storage-Stops s p id _ e))
handle-Refused w s p (scan id) e =
    respond-Stops s _ (>>=-Stops _ _ (require_storage-Stops s p id _ e))
handle-Refused w s p (verify id) e =
    respond-Stops s _ (>>=-Stops _ _ (require_storage-Stops s p id _ e))
handle-Refused w s p (scan_status id) e =
    respond-Stops s _ (>>=-Stops _ _ (require_storage-Stops s p id _ e))
handle-Refused w s p (scan_cancel id) e =
    respond-Stops s _ (>>=-Stops _ _ (require_storage-Stops s p id _ e))
handle-Refused w s p (list_missing id) e =
    respond-Stops s _ (>>=-Stops _ _ (require_storage-Stops s p id _ e))
handle-Refused w s p (tag_by_path id body) e = tag_by_path-Refused w.disk s p id body e
handle-Refused w s p (storage_root id body) e =
    respond-Stops s _ (>>=-Stops _ _ (require_storage-Stops s p id _ e))
handle-Refused w s p (list_files storage_id path) e =
    list_files-Refused w.disk s p storage_id path e
handle-Refused w s p (get_file id) e = respond-Stops s _ (>>=-Stops _ _ (file_for-Stops s p id _ e))
handle-Refused w s p (get_fields id) e =
    respond-Stops s _ (>>=-Stops _ _ (file_for-Stops s p id _ e))
handle-Refused w s p (thumbnail id) e =
    respond-Stops s _ (>>=-Stops _ _ (file_for-Stops s p id _ e))
handle-Refused w s p (preview id) e = respond-Stops s _ (>>=-Stops _ _ (file_for-Stops s p id _ e))
handle-Refused w s p (raw id) e = respond-Stops s _ (>>=-Stops _ _ (file_for-Stops s p id _ e))
handle-Refused w s p (apply_field id body) e =
    respond-Stops s _ (>>=-Stops _ _ (file_for-Stops s p id _ e))
handle-Refused w s p (remove_field id ft) e =
    respond-Stops s _ (>>=-Stops _ _ (file_for-Stops s p id _ e))
handle-Refused w s p (set_thumbnail id body) e =
    respond-Stops s _ (>>=-Stops _ _ (file_for-Stops s p id _ e))
handle-Refused w s p list_field_types e = absurd cc
handle-Refused w s p (create_field_type body) e = respond-Stops s _ (guarded-Stops _ _ _ e)
handle-Refused w s p (update_field_type id body) e = respond-Stops s _ (guarded-Stops _ _ _ e)
handle-Refused w s p (delete_field_type id) e = respond-Stops s _ (guarded-Stops _ _ _ e)
handle-Refused w s p (list_root_values id) e = absurd cc
handle-Refused w s p (list_child_values id) e = absurd cc
handle-Refused w s p (create_field_value body) e = respond-Stops s _ (guarded-Stops _ _ _ e)
handle-Refused w s p (update_field_value id body) e = respond-Stops s _ (guarded-Stops _ _ _ e)
handle-Refused w s p (delete_field_value id dry_run) e = respond-Stops s _ (guarded-Stops _ _ _ e)
handle-Refused w s p (find_values q ft) e = absurd cc
handle-Refused w s p (list_aliases id) e = absurd cc
handle-Refused w s p (add_alias id body) e = respond-Stops s _ (guarded-Stops _ _ _ e)
handle-Refused w s p (delete_alias id) e = respond-Stops s _ (guarded-Stops _ _ _ e)
handle-Refused w s p (merge_value id body) e = respond-Stops s _ (guarded-Stops _ _ _ e)
handle-Refused w s p (value_usage id) e = absurd cc
handle-Refused w s p (unused_values id) e = absurd cc
handle-Refused w s p (batch_tags body) e = batch_tags-Refused w.disk s p body e
handle-Refused w s p (search_files sid filters limit cursor) e =
    respond-Stops s _ (>>=-Stops _ _ (scope-Stops s p (parse_id2 sid) e))
handle-Refused w s p list_users e = respond-Stops s _ (guarded-Stops _ _ _ e)
handle-Refused w s p (create_user body) e = respond-Stops s _ (guarded-Stops _ _ _ e)
handle-Refused w s p (delete_user id) e = respond-Stops s _ (guarded-Stops _ _ _ e)
handle-Refused w s p list_groups e = respond-Stops s _ (guarded-Stops _ _ _ e)
handle-Refused w s p (create_group body) e = respond-Stops s _ (guarded-Stops _ _ _ e)
handle-Refused w s p (delete_group id) e = respond-Stops s _ (guarded-Stops _ _ _ e)
handle-Refused w s p (add_member id body) e = respond-Stops s _ (guarded-Stops _ _ _ e)
handle-Refused w s p (remove_member id uid) e = respond-Stops s _ (guarded-Stops _ _ _ e)
handle-Refused w s p (grant_permission body) e = respond-Stops s _ (grant_call-Stops s p body _ e)
handle-Refused w s p (delete_permission id) e = respond-Stops s _ (guarded-Stops _ _ _ e)
handle-Refused w s p (storage_permissions id) e =
    respond-Stops s _ (>>=-Stops _ _ (require_storage-Stops s p id _ e))
handle-Refused w s p (effective user_id rt resource_id) e =
    respond-Stops s _ (guarded-Stops _ _ _ e)
handle-Refused w s p (list_audit limit) e = respond-Stops s _ (guarded-Stops _ _ _ e)

by_principal-Refused :
    (w : World) (s : State) (call : Call) (o : Option Principal)
    → has_need s call o ≡ false
    → Refused s (by_principal w s call o)
unfolding by_principal
by_principal-Refused w s call none h = (unauthorized.0, unauthorized.1, refl)
by_principal-Refused w s call (some p) h = handle-Refused w s p call h

-- A request without a valid access token, or whose user lacks the rights that the table asks for the
-- call, gets an error and no data, and the state stays as it was.
pub serve-Refused :
    (w : World) (s : State) (cookie : Option Text) (call : Call)
    → has_rights w s cookie call ≡ false
    → Refused s (serve w s cookie call)
unfolding serve
serve-Refused w s cookie call h =
    by_principal-Refused w s call (require_auth w.verify_access s cookie) h
