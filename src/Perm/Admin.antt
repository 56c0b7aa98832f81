-- ===== src/Perm/Admin.antt =====
-- server/internal/perm/admin.go: granting and revoking permissions.
pub mod Laws
pub mod Escalation
use file_tag_system.Prelude.{
  ℕ, List, [], ◌∷◌, ◌++◌, Bool, true, false, ◌&&◌, ◌==◌, not, Option, none, some, find, select,
  is_some_of, if◌then◌else◌,
}
use file_tag_system.Text.{Text, text_eq}
use file_tag_system.Models.{
  ResourceType, system, storage, file, PermSet, Permission, admin, has, covers,
}
use file_tag_system.Result.{Result, ok, err, forbidden, over_grant, bad_resource}
use file_tag_system.Db.{Db, File, next_key}
use file_tag_system.Perm.Resolve.{resolve_effective}

-- The row that is inserted: its key is given by the database.
abbrev pub stored : Db → Permission → Permission
stored db p = record p { id = next_key (λ (q : Permission). q.id) db.permissions }

-- `insertPermission`, and `GrantRaw`
unfoldable pub insert_permission : Db → Permission → ℕ × Db
insert_permission db p =
    let q = stored db p in (q.id, record db { permissions = db.permissions ++ q ∷ [] })

of_file : Option File → Result (ℕ × Text)
of_file none = err bad_resource
of_file (some f) = ok (f.storage_id, f.path)

file_context : Db → Option ℕ → Result (ℕ × Text)
file_context db none = err bad_resource
file_context db (some id) = of_file (find (λ (f : File). f.id == id) db.files)

storage_context : Option ℕ → Result (ℕ × Text)
storage_context none = err bad_resource
storage_context (some id) = ok (id, [])

context_of : Db → ResourceType → Option ℕ → Result (ℕ × Text)
context_of db system id = ok (0, [])
context_of db storage id = storage_context id
context_of db file id = file_context db id
context_of db (ResourceType.other t) id = err bad_resource

-- `resourceContext`
unfoldable pub resource_context : Db → Permission → Result (ℕ × Text)
unfolding context_of file_context storage_context of_file
resource_context db p = context_of db p.resource_type p.resource_id

-- The guards of `Grant` behind the context of the resource.
grant_at : Db → ℕ → List ℕ → Permission → Result (ℕ × Text) → Result (ℕ × Db)
grant_at db granter groups p (err e) = err e
grant_at db granter groups p (ok (sid, path)) =
    let granter_set = resolve_effective db granter groups sid path in
    if not (has granter_set admin)
    then err forbidden
    else if not p.is_deny && not (covers granter_set p.grant)
    then err over_grant
    else ok (insert_permission db p)

-- `Grant`
unfoldable pub grant : Db → ℕ → List ℕ → Permission → Result (ℕ × Db)
unfolding grant_at
grant db granter groups p = grant_at db granter groups p (resource_context db p)

-- `DeletePermission`
unfoldable pub delete_permission : Db → ℕ → Db
delete_permission db id = record db {
  permissions = select (λ (p : Permission). not (p.id == id)) db.permissions;
}

same_type : ResourceType → ResourceType → Bool
same_type system system = true
same_type storage storage = true
same_type file file = true
same_type (ResourceType.other s) (ResourceType.other t) = text_eq s t
same_type _ _ = false

-- The resource id restricts the list only if it is given.
same_id : Option ℕ → Option ℕ → Bool
same_id given none = true
same_id given (some id) = is_some_of given id

-- `ListResourcePermissions`; the table is in the order of its keys.
unfoldable pub list_resource_permissions : Db → ResourceType → Option ℕ → List Permission
unfolding same_type same_id
list_resource_permissions db rt id =
    select (λ (p : Permission). same_type p.resource_type rt && same_id p.resource_id id)
      db.permissions
