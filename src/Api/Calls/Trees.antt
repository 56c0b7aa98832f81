-- ===== src/Api/Calls/Trees.antt =====
-- The tree of values under the routes of server/internal/api, taken one after the other.
use file_tag_system.Prelude.{
  ℕ, List, [], ◌∷◌, ◌≡◌, refl, sym, subst, arith, Option, none, some, Bool-cases, inl, inr,
}
use file_tag_system.Text.{Text}
use file_tag_system.Models.{manage}
use file_tag_system.Result.{Result, ok, err}
use file_tag_system.Db.{Db}
use file_tag_system.Catalog
use file_tag_system.Tags
use file_tag_system.Tagging
use file_tag_system.Perm.Admin
use file_tag_system.Auth.Accounts
use file_tag_system.Auth.TwoFactor
use file_tag_system.Tags.Tree.{IsTree}
use file_tag_system.Api.{
  State, Principal, Reply, respond, attempt, not_found_or, go, ◌>>=◌, can_system,
}
use file_tag_system.Api.Files.{
  handle_list_files, handle_get_file, handle_get_fields, handle_apply_field, handle_remove_field,
  handle_set_thumbnail,
}
use file_tag_system.Api.Previews.{handle_preview, handle_raw, handle_thumbnail}
use file_tag_system.Api.Storages.{
  handle_list_storages, handle_create_storage, handle_update_storage, handle_delete_storage,
  handle_scan, handle_scan_status, handle_scan_cancel, handle_tag_by_path, handle_storage_root,
  handle_missing, trigger_scan,
}
use file_tag_system.Api.Vocabulary.{
  handle_list_field_types, handle_create_field_type, handle_update_field_type,
  handle_delete_field_type, handle_list_root_values, handle_list_child_values,
  handle_create_field_value, rename_if, move_if, handle_update_field_value,
  handle_delete_field_value, handle_search_values, handle_list_aliases, handle_add_alias,
  handle_delete_alias, handle_merge_value, handle_value_usage, handle_unused_values, ValueChange,
}
use file_tag_system.Api.Batches.{handle_batch_tags}
use file_tag_system.Api.Admin.{
  handle_list_users, handle_create_user, handle_delete_user, handle_list_groups,
  handle_create_group, handle_delete_group, handle_add_member, handle_remove_member,
  handle_grant_permission, handle_delete_permission, handle_storage_permissions, handle_list_audit,
  handle_effective,
}
use file_tag_system.Api.Find.{handle_search}
use file_tag_system.Api.SignIn.{
  require_auth, handle_me, handle_two_fa_setup, handle_two_fa_enable, handle_two_fa_disable,
}
use file_tag_system.Tagging.Same.{Gives, ok-Gives, apply_tag-same, apply_by_path-same, batch-same}
use file_tag_system.Tagging.Trees.{
  HasTree, delete_storage-HasTree, delete_field_type-HasTree, delete_field_value-HasTree,
  merge_field_value-HasTree, create_field_value-HasTree, rename_field_value-HasTree,
  move_field_value-HasTree,
}
use file_tag_system.Api.Calls.{
  Call, World, handle, by_principal, serve, me, disable_two_fa, setup_two_fa, enable_two_fa,
  list_storages, create_storage, update_storage, delete_storage, scan, verify, scan_status,
  scan_cancel, list_missing, tag_by_path, storage_root, list_files, get_file, get_fields, thumbnail,
  preview, raw, apply_field, remove_field, set_thumbnail, list_field_types, create_field_type,
  update_field_type, delete_field_type, list_root_values, list_child_values, create_field_value,
  update_field_value, delete_field_value, find_values, list_aliases, add_alias, delete_alias,
  merge_value, value_usage, unused_values, batch_tags, search_files, list_users, create_user,
  delete_user, list_groups, create_group, delete_group, add_member, remove_member, grant_permission,
  delete_permission, storage_permissions, effective, list_audit,
}

kept :
    (s : State) (r : Reply × State)
    → r.1.db.field_values ≡ s.db.field_values
    → HasTree s.db
    → HasTree r.1.db
kept s r same tree = subst IsTree (sym same) tree

rename_if-HasTree :
    (db : Db) (id : ℕ) (o : Option Text) → HasTree db → Gives HasTree (rename_if db id o)
unfolding rename_if
rename_if-HasTree db id none tree = ok-Gives HasTree db tree
rename_if-HasTree db id (some t) tree = rename_field_value-HasTree db id t tree

move_if-HasTree :
    (s : State) (id : ℕ) (req : ValueChange) → HasTree s.db → HasTree (move_if s id req).1.db
unfolding move_if
move_if-HasTree s id req tree = grind (arith, move_field_value-HasTree)

update_field_value-HasTree :
    (s : State) (p : Principal) (id : Option ℕ) (t : Option ValueChange)
    → HasTree s.db
    → HasTree (handle_update_field_value s p id t).1.db
unfolding handle_update_field_value
update_field_value-HasTree s p none t tree = grind (arith)
update_field_value-HasTree s p (some n) none tree = grind (arith)
update_field_value-HasTree s p (some n) (some req) tree =
    elim (Bool-cases (can_system s p manage)) [
      | inr k ↦ rw k tree
      | inl y ↦
          rw y (by_rename (rename_if s.db n req.value) (rename_if-HasTree s.db n req.value tree))
    ]
  where
    by_rename :
        (r : Result Db)
        → Gives HasTree r
        → HasTree
            (respond s
              (attempt not_found_or r >>= λ db. go (move_if (record s { db = db }) n req))).1.db
    by_rename (err e) h = tree
    by_rename (ok db) h = move_if-HasTree (record s { db = db }) n req (h db refl)

-- Whatever a call does, the values stay a tree.
handle-HasTree :
    (w : World) (s : State) (p : Principal) (call : Call)
    → HasTree s.db
    → HasTree (handle w s p call).1.db
unfolding Tags.add_alias Accounts.add_member Tags.create_field_type Accounts.create_group
    Catalog.create_storage Accounts.create_user Tags.delete_alias Accounts.delete_group
    Admin.delete_permission Accounts.delete_user Accounts.drop_permissions Admin.grant handle
    handle_add_alias handle_add_member handle_apply_field handle_batch_tags handle_create_field_type
    handle_create_field_value handle_create_group handle_create_storage handle_create_user
    handle_delete_alias handle_delete_field_type handle_delete_field_value handle_delete_group
    handle_delete_permission handle_delete_storage handle_delete_user handle_effective
    handle_get_fields handle_get_file handle_grant_permission handle_list_aliases handle_list_audit
    handle_list_child_values handle_list_field_types handle_list_files handle_list_groups
    handle_list_root_values handle_list_storages handle_list_users handle_me handle_merge_value
    handle_missing handle_preview handle_raw handle_thumbnail handle_remove_field
    handle_remove_member handle_scan handle_scan_cancel handle_scan_status handle_search
    handle_search_values handle_set_thumbnail handle_storage_permissions handle_storage_root
    handle_tag_by_path handle_two_fa_disable handle_two_fa_enable handle_two_fa_setup
    handle_unused_values handle_update_field_type handle_update_storage handle_value_usage
    Admin.insert_permission Tagging.remove_field Catalog.set_thumbnail_by_id TwoFactor.setup_two_fa
    trigger_scan Tags.update_field_type Catalog.update_storage Catalog.update_storage_root
handle-HasTree w s p me tree = kept s (handle_me s p) (ground arith) tree
handle-HasTree w s p setup_two_fa tree =
    kept s (handle_two_fa_setup w.secret w.encrypted_secret s p) (ground arith) tree
handle-HasTree w s p (enable_two_fa body) tree =
    kept s (handle_two_fa_enable w.crypto w.drawn_codes s p body) (ground arith) tree
handle-HasTree w s p disable_two_fa tree = kept s (handle_two_fa_disable s p) (ground arith) tree
handle-HasTree w s p list_storages tree = kept s (handle_list_storages s p) (ground arith) tree
handle-HasTree w s p (create_storage body) tree =
    kept s (handle_create_storage s p body) (ground arith) tree
handle-HasTree w s p (update_storage id body) tree =
    kept s (handle_update_storage s p id body) (ground arith) tree
handle-HasTree w s p (delete_storage id) tree = grind (arith, delete_storage-HasTree)
handle-HasTree w s p (scan id) tree = kept s (handle_scan w.now s p id) (ground arith) tree
handle-HasTree w s p (verify id) tree = kept s (handle_scan w.now s p id) (ground arith) tree
handle-HasTree w s p (scan_status id) tree = kept s (handle_scan_status s p id) (ground arith) tree
handle-HasTree w s p (scan_cancel id) tree = kept s (handle_scan_cancel s p id) (ground arith) tree
handle-HasTree w s p (list_missing id) tree = kept s (handle_missing s p id) (ground arith) tree
handle-HasTree w s p (tag_by_path id body) tree =
    kept s (handle_tag_by_path w.disk s p id body) (grind (arith, apply_by_path-same)) tree
handle-HasTree w s p (storage_root id body) tree =
    kept s (handle_storage_root s p id body) (ground arith) tree
handle-HasTree w s p (list_files storage_id path) tree =
    kept s (handle_list_files w.disk s p storage_id path) (ground arith) tree
handle-HasTree w s p (get_file id) tree = kept s (handle_get_file s p id) (ground arith) tree
handle-HasTree w s p (get_fields id) tree = kept s (handle_get_fields s p id) (ground arith) tree
handle-HasTree w s p (thumbnail id) tree =
    kept s (handle_thumbnail w.viewer s p id) (ground arith) tree
handle-HasTree w s p (preview id) tree = kept s (handle_preview w.viewer s p id) (ground arith) tree
handle-HasTree w s p (raw id) tree = kept s (handle_raw w.viewer s p id) (ground arith) tree
handle-HasTree w s p (apply_field id body) tree =
    kept s (handle_apply_field s p id body) (grind (arith, apply_tag-same)) tree
handle-HasTree w s p (remove_field id ft) tree =
    kept s (handle_remove_field s p id ft) (ground arith) tree
handle-HasTree w s p (set_thumbnail id body) tree =
    kept s (handle_set_thumbnail s p id body) (ground arith) tree
handle-HasTree w s p list_field_types tree = kept s (handle_list_field_types s) (ground arith) tree
handle-HasTree w s p (create_field_type body) tree =
    kept s (handle_create_field_type s p body) (ground arith) tree
handle-HasTree w s p (update_field_type id body) tree =
    kept s (handle_update_field_type s p id body) (ground arith) tree
handle-HasTree w s p (delete_field_type id) tree = grind (arith, delete_field_type-HasTree)
handle-HasTree w s p (list_root_values id) tree =
    kept s (handle_list_root_values s id) (ground arith) tree
handle-HasTree w s p (list_child_values id) tree =
    kept s (handle_list_child_values s id) (ground arith) tree
handle-HasTree w s p (create_field_value body) tree = grind (arith, create_field_value-HasTree)
handle-HasTree w s p (update_field_value id body) tree = update_field_value-HasTree s p id body tree
handle-HasTree w s p (delete_field_value id dry_run) tree =
    grind (arith, delete_field_value-HasTree)
handle-HasTree w s p (find_values q ft) tree =
    kept s (handle_search_values w.is_space w.fts s q ft) (ground arith) tree
handle-HasTree w s p (list_aliases id) tree = kept s (handle_list_aliases s id) (ground arith) tree
handle-HasTree w s p (add_alias id body) tree =
    kept s (handle_add_alias s p id body) (ground arith) tree
handle-HasTree w s p (delete_alias id) tree =
    kept s (handle_delete_alias s p id) (ground arith) tree
handle-HasTree w s p (merge_value id body) tree = grind (arith, merge_field_value-HasTree)
handle-HasTree w s p (value_usage id) tree = kept s (handle_value_usage s id) (ground arith) tree
handle-HasTree w s p (unused_values id) tree =
    kept s (handle_unused_values s id) (ground arith) tree
handle-HasTree w s p (batch_tags body) tree =
    kept s (handle_batch_tags w.disk s p body) (grind (arith, batch-same)) tree
handle-HasTree w s p (search_files sid filters limit cursor) tree =
    kept s (handle_search s p sid filters limit cursor) (ground arith) tree
handle-HasTree w s p list_users tree = kept s (handle_list_users s p) (ground arith) tree
handle-HasTree w s p (create_user body) tree =
    kept s (handle_create_user w.hash_password s p body) (ground arith) tree
handle-HasTree w s p (delete_user id) tree = kept s (handle_delete_user s p id) (ground arith) tree
handle-HasTree w s p list_groups tree = kept s (handle_list_groups s p) (ground arith) tree
handle-HasTree w s p (create_group body) tree =
    kept s (handle_create_group s p body) (ground arith) tree
handle-HasTree w s p (delete_group id) tree =
    kept s (handle_delete_group s p id) (ground arith) tree
handle-HasTree w s p (add_member id body) tree =
    kept s (handle_add_member s p id body) (ground arith) tree
handle-HasTree w s p (remove_member id uid) tree =
    kept s (handle_remove_member s p id uid) (ground arith) tree
handle-HasTree w s p (grant_permission body) tree =
    kept s (handle_grant_permission s p body) (ground arith) tree
handle-HasTree w s p (delete_permission id) tree =
    kept s (handle_delete_permission s p id) (ground arith) tree
handle-HasTree w s p (storage_permissions id) tree =
    kept s (handle_storage_permissions s p id) (ground arith) tree
handle-HasTree w s p (effective user_id rt resource_id) tree =
    kept s (handle_effective s p user_id rt resource_id) (ground arith) tree
handle-HasTree w s p (list_audit limit) tree =
    kept s (handle_list_audit s p limit) (ground arith) tree

-- Requests one after the other, each with what it meets outside and its access cookie.
abbrev pub serve_each : List (World × Option Text × Call) → State → State
serve_each [] s = s
serve_each ((w, cookie, call) ∷ rest) s = serve_each rest (serve w s cookie call).1

by_principal-HasTree :
    (w : World) (s : State) (call : Call) (o : Option Principal)
    → HasTree s.db
    → HasTree (by_principal w s call o).1.db
unfolding by_principal
by_principal-HasTree w s call none tree = tree
by_principal-HasTree w s call (some p) tree = handle-HasTree w s p call tree

-- Any sequence of requests, of whatever users and with whatever outcomes, keeps the values a tree
-- whose paths spell the parent links.
pub serve_each-IsTree :
    (requests : List (World × Option Text × Call)) (s : State)
    → IsTree s.db.field_values
    → IsTree (serve_each requests s).db.field_values
unfolding serve
serve_each-IsTree [] s tree = tree
serve_each-IsTree ((w, cookie, call) ∷ rest) s tree =
    serve_each-IsTree rest (serve w s cookie call).1
      (by_principal-HasTree w s call (require_auth w.verify_access s cookie) tree)
