-- ===== src/Api/Admin.antt =====
-- server/internal/api/handlers_admin.go, and `Bootstrap` of server.go.
pub mod Seed
use file_tag_system.Prelude.{
  ℕ, List, [], ◌∷◌, ◌++◌, Bool, true, false, ◌||◌, ◌==◌, not, Option, none, some, map,
}
use file_tag_system.Text.{Text, codes, text_eq}
use file_tag_system.Models.{
  admin, ResourceType, system, storage, file, PrincipalType, user, group, Permission,
}
use file_tag_system.Result.{Result, ok, err, Error, forbidden, over_grant, bad_resource}
use file_tag_system.Perm.Resolve.{resolve_effective}
use file_tag_system.Perm.Admin.{
  grant, insert_permission, delete_permission, list_resource_permissions,
}
use file_tag_system.Catalog.{get_file}
use file_tag_system.Auth.Accounts.{
  Accounts, User, create_user, delete_user, create_group, delete_group, add_member, remove_member,
  user_group_ids, list_users, list_groups,
}
use file_tag_system.Audit.{
  user_delete, perm_grant, perm_revoke, number, string, flag, forget_user, list_entries,
}
use file_tag_system.Api.{
  State, Principal, Reply, answered, Refusal, Flow, stop, go, respond, need, given, attempt, ◌>>=◌,
  ◌>>◌, no_content, can, require_system_admin, require_storage, logged, bad_id, bad_body, internal,
  server_error, always, users, groups, id_body, permissions, log_entries, effective_set, view_user,
}
use file_tag_system.Api.Query.{parse_id2, or_else}

-- The row of `grantSystemAdmin`.
abbrev pub system_admin : ℕ → Permission
system_admin uid = record {
  id = 0;
  principal_type = user;
  principal_id = uid;
  resource_type = system;
  resource_id = none;
  grant = record {
    read = false;
    write_meta = false;
    write_file = false;
    manage = false;
    admin = true;
  };
  is_deny = false;
}

-- The grant for the user that `Bootstrap` has made.
unfoldable pub seed : State → Result (ℕ × Accounts) → Result (Bool × State)
seed s (err e) = err e
seed s (ok (uid, acc)) =
    ok (true, record s { db = (insert_permission s.db (system_admin uid)).1; accounts = acc })

unfoldable pub unless_users : State → Result (Bool × State) → List User → Result (Bool × State)
unless_users s made [] = made
unless_users s made (u ∷ us) = ok (false, s)

-- `Bootstrap`, with the library's hash of a password.
unfoldable pub bootstrap : (Text → Option Text) → State → Text → Text → Result (Bool × State)
unfolding seed unless_users
bootstrap hash s username password =
    unless_users s
      (seed s (create_user hash s.accounts username (username ++ codes "@local") password))
      s.accounts.users

-- `handleListUsers`
unfoldable pub handle_list_users : State → Principal → Reply × State
handle_list_users s p = respond s do
  require_system_admin s p
  go (answered 200 (users (map view_user (list_users s.accounts))), s)

pub record NewUser : Type 0 where
  pub username : Text
  pub email : Text
  pub password : Text

-- `handleCreateUser`
unfoldable pub handle_create_user :
    (Text → Option Text) → State → Principal → Option NewUser → Reply × State
handle_create_user hash s p body = respond s do
  require_system_admin s p
  req ← given body bad_body
  need (not (text_eq req.username [] || text_eq req.password []))
      (400, codes "username and password required")
  (uid, acc) ←
      attempt (always (400, codes "could not create user (duplicate?)"))
        (create_user hash s.accounts req.username req.email req.password)
  go (answered 201 (id_body uid), record s { accounts = acc })

-- `handleDeleteUser`; the entries of the log that name the user forget it.
unfoldable pub handle_delete_user : State → Principal → Option ℕ → Reply × State
handle_delete_user s p id = respond s do
  require_system_admin s p
  uid ← given id bad_id
  need (not (uid == p.user_id)) (400, codes "cannot delete yourself")
  (db, acc) ← attempt server_error (delete_user s.db s.accounts uid)
  go (
    no_content,
    logged p user_delete (codes "user") (some uid) []
        (record s { db = db; accounts = acc; entries = map (forget_user uid) s.entries }),
  )

-- `handleListGroups`
unfoldable pub handle_list_groups : State → Principal → Reply × State
handle_list_groups s p =
    respond s do require_system_admin s p; go (answered 200 (groups (list_groups s.accounts)), s)

-- `handleCreateGroup`
unfoldable pub handle_create_group : State → Principal → Option Text → Reply × State
handle_create_group s p body = respond s do
  require_system_admin s p
  name ← given body bad_body
  (gid, acc) ←
      attempt (always (400, codes "could not create group (duplicate?)"))
        (create_group s.accounts name)
  go (answered 201 (id_body gid), record s { accounts = acc })

-- `handleDeleteGroup`
unfoldable pub handle_delete_group : State → Principal → Option ℕ → Reply × State
handle_delete_group s p id = respond s do
  require_system_admin s p
  gid ← given id bad_id
  (db, acc) ← attempt server_error (delete_group s.db s.accounts gid)
  go (no_content, record s { db = db; accounts = acc })

-- `handleAddMember`
unfoldable pub handle_add_member : State → Principal → Option ℕ → Option ℕ → Reply × State
handle_add_member s p id body = respond s do
  require_system_admin s p
  gid ← given id bad_id
  uid ← given body bad_body
  acc ← attempt server_error (add_member s.accounts gid uid)
  go (no_content, record s { accounts = acc })

-- `handleRemoveMember`
unfoldable pub handle_remove_member : State → Principal → Option ℕ → Option ℕ → Reply × State
handle_remove_member s p id uid = respond s do
  require_system_admin s p
  gid ← given id bad_id
  member ← given uid bad_id
  go (no_content, record s { accounts = remove_member s.accounts gid member })

principal_text : PrincipalType → Text
principal_text user = codes "user"
principal_text group = codes "group"
principal_text (PrincipalType.other t) = t

resource_text : ResourceType → Text
resource_text system = codes "system"
resource_text storage = codes "storage"
resource_text file = codes "file"
resource_text (ResourceType.other t) = t

unfoldable pub grant_refusal : Error → Refusal
grant_refusal forbidden = file_tag_system.Api.forbidden
grant_refusal over_grant = (403, codes "cannot grant permissions beyond your own")
grant_refusal bad_resource = (400, codes "invalid resource")
grant_refusal e = internal

-- `handleGrantPermission`; the id of the row in the request is not read.
unfoldable pub handle_grant_permission : State → Principal → Option Permission → Reply × State
unfolding grant_refusal principal_text resource_text
handle_grant_permission s p body = respond s do
  row ← given body bad_body
  (id, db) ← attempt grant_refusal (grant s.db p.user_id p.groups row)
  go (
    answered 201 (id_body id),
    logged p perm_grant (resource_text row.resource_type) row.resource_id
        (flag (codes "is_deny") row.is_deny
          ∷ number (codes "principal_id") row.principal_id
          ∷ string (codes "principal_type") (principal_text row.principal_type)
          ∷ [])
        (record s { db = db }),
  )

-- `handleDeletePermission`
unfoldable pub handle_delete_permission : State → Principal → Option ℕ → Reply × State
handle_delete_permission s p id = respond s do
  require_system_admin s p
  row ← given id bad_id
  go (
    no_content,
    logged p perm_revoke (codes "permission") (some row) []
        (record s { db = delete_permission s.db row }),
  )

-- `handleStoragePermissions`
unfoldable pub handle_storage_permissions : State → Principal → Option ℕ → Reply × State
handle_storage_permissions s p id = respond s do
  sid ← require_storage s p id admin
  go (answered 200 (permissions (list_resource_permissions s.db storage (some sid))), s)

-- `handleListAudit`
unfoldable pub handle_list_audit : State → Principal → Text → Reply × State
unfolding or_else
handle_list_audit s p limit = respond s do
  require_system_admin s p
  go (answered 200 (log_entries (list_entries s.entries (or_else 100 (parse_id2 limit)))), s)

asked_file : State → Option ℕ → Flow (ℕ × Text)
asked_file s none = go (0, [])
asked_file s (some id) = do
  f ← attempt (always (400, codes "file not found")) (get_file s.db id)
  go (f.storage_id, f.path)

-- The resource that `handleEffective` is asked about.
asked : State → ResourceType → Text → Flow (ℕ × Text)
unfolding or_else asked_file
asked s system id = go (0, [])
asked s storage id = go (or_else 0 (parse_id2 id), [])
asked s file id = asked_file s (parse_id2 id)
asked s (ResourceType.other t) id = stop (400, codes "bad resource_type")

-- `handleEffective`
unfoldable pub handle_effective : State → Principal → Text → ResourceType → Text → Reply × State
unfolding asked
handle_effective s p user_id rt resource_id = respond s do
  require_system_admin s p
  uid ← given (parse_id2 user_id) (400, codes "user_id required")
  (sid, path) ← asked s rt resource_id
  go (
    answered 200
        (effective_set (resolve_effective s.db uid (user_group_ids s.accounts uid) sid path)),
    s,
  )
