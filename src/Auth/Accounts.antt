-- ===== src/Auth/Accounts.antt =====
-- server/internal/auth/service.go: users, groups and memberships, with the other tables that refer
-- to a user. The hash of a password is the library's, and an argument; it may refuse a password.
pub mod Cleanup
use file_tag_system.Prelude.{
  ℕ, List, [], ◌∷◌, ◌++◌, Bool, true, false, ◌&&◌, ◌||◌, ◌==◌, not, ltb, Option, none, some, any,
  find, select, map, if◌then◌else◌,
}
use file_tag_system.Text.{Text, text_eq}
use file_tag_system.Models.{PrincipalType, user, group, Permission}
use file_tag_system.Result.{
  Result, ok, err, not_found, constraint, bad_password, found, guard, ◌>>=◌, ◌>>◌,
}
use file_tag_system.Db.{Db, next_key}
use file_tag_system.Auth.Refresh.{Token}

pub record User : Type 0 where
  pub id : ℕ
  pub username : Text
  pub email : Text
  pub password_hash : Text
  pub is_active : Bool

pub record Group : Type 0 where
  pub id : ℕ
  pub name : Text

-- A row of `user_groups`.
pub record Member : Type 0 where
  pub user_id : ℕ
  pub group_id : ℕ

-- A row of `user_2fa`; the secret is encrypted.
pub record TwoFactorRow : Type 0 where
  pub user_id : ℕ
  pub totp_secret : Option Text
  pub is_enabled : Bool

-- A row of `user_backup_codes`; `used` tells that `used_at` is not NULL.
pub record BackupCode : Type 0 where
  pub user_id : ℕ
  pub code_hash : Text
  pub used : Bool

pub record Accounts : Type 0 where
  pub users : List User
  pub groups : List Group
  pub members : List Member
  pub two_factors : List TwoFactorRow
  pub backup_codes : List BackupCode
  pub tokens : List Token

abbrev pub no_accounts : Accounts
no_accounts = record {
  users = [];
  groups = [];
  members = [];
  two_factors = [];
  backup_codes = [];
  tokens = [];
}

abbrev pub user_of : Accounts → ℕ → Option User
user_of acc id = find (λ (u : User). u.id == id) acc.users

abbrev pub has_user : Accounts → ℕ → Bool
has_user acc id = any (λ (u : User). u.id == id) acc.users

abbrev pub has_group : Accounts → ℕ → Bool
has_group acc id = any (λ (g : Group). g.id == id) acc.groups

-- `CreateUser`, under the unique columns.
unfoldable pub create_user :
    (Text → Option Text) → Accounts → Text → Text → Text → Result (ℕ × Accounts)
create_user hash acc username email password = do
  h ← found bad_password (hash password)
  guard (not (any (λ (u : User). text_eq u.username username || text_eq u.email email) acc.users))
      constraint
  let id = next_key (λ (u : User). u.id) acc.users
  ok (
    id,
    record acc {
      users =
          acc.users
          ++ record {
            id = id;
            username = username;
            email = email;
            password_hash = h;
            is_active = true;
          }
            ∷ [];
    },
  )

-- `GetUser`
abbrev pub get_user : Accounts → ℕ → Result User
get_user acc id = found not_found (user_of acc id)

-- `SetActive`
unfoldable pub set_active : Accounts → ℕ → Bool → Accounts
set_active acc id active = record acc {
  users = map (λ (u : User). if u.id == id then record u { is_active = active } else u) acc.users;
}

same_principal : PrincipalType → PrincipalType → Bool
same_principal user user = true
same_principal group group = true
same_principal (PrincipalType.other s) (PrincipalType.other t) = text_eq s t
same_principal _ _ = false

-- The `DELETE FROM permissions` of `deletePrincipal`.
unfoldable pub drop_permissions : PrincipalType → ℕ → Db → Db
unfolding same_principal
drop_permissions pt id db = record db {
  permissions =
      select (λ (p : Permission). not (same_principal p.principal_type pt && p.principal_id == id))
        db.permissions;
}

-- `DeleteUser`, with the rows that go by ON DELETE CASCADE.
unfoldable pub delete_user : Db → Accounts → ℕ → Result (Db × Accounts)
delete_user db acc id = do
  guard (has_user acc id) not_found
  ok (
    drop_permissions user id db,
    record acc {
      users = select (λ (u : User). not (u.id == id)) acc.users;
      members = select (λ (m : Member). not (m.user_id == id)) acc.members;
      two_factors = select (λ (t : TwoFactorRow). not (t.user_id == id)) acc.two_factors;
      backup_codes = select (λ (c : BackupCode). not (c.user_id == id)) acc.backup_codes;
      tokens = select (λ (t : Token). not (t.user_id == id)) acc.tokens;
    },
  )

-- `credentials`
unfoldable pub credentials : Accounts → Text → Option User
credentials acc username = find (λ (u : User). text_eq u.username username) acc.users

-- `CreateGroup`
unfoldable pub create_group : Accounts → Text → Result (ℕ × Accounts)
create_group acc name = do
  guard (not (any (λ (g : Group). text_eq g.name name) acc.groups)) constraint
  let id = next_key (λ (g : Group). g.id) acc.groups
  ok (id, record acc { groups = acc.groups ++ record { id = id; name = name } ∷ [] })

-- `DeleteGroup`
unfoldable pub delete_group : Db → Accounts → ℕ → Result (Db × Accounts)
delete_group db acc id = do
  guard (has_group acc id) not_found
  ok (
    drop_permissions group id db,
    record acc {
      groups = select (λ (g : Group). not (g.id == id)) acc.groups;
      members = select (λ (m : Member). not (m.group_id == id)) acc.members;
    },
  )

abbrev pub is_member : ℕ → ℕ → Member → Bool
is_member gid uid m = m.user_id == uid && m.group_id == gid

-- `AddMember`: the row that is there is kept; a new one needs its user and its group.
unfoldable pub add_member : Accounts → ℕ → ℕ → Result Accounts
add_member acc gid uid = if any (is_member gid uid) acc.members then ok acc else (do
  guard (has_user acc uid && has_group acc gid) constraint
  ok (record acc { members = acc.members ++ record { user_id = uid; group_id = gid } ∷ [] }))

-- `RemoveMember`
unfoldable pub remove_member : Accounts → ℕ → ℕ → Accounts
remove_member acc gid uid = record acc {
  members = select (λ (m : Member). not (is_member gid uid m)) acc.members;
}

-- `UserGroupIDs`
unfoldable pub user_group_ids : Accounts → ℕ → List ℕ
user_group_ids acc uid =
    map (λ (m : Member). m.group_id) (select (λ (m : Member). m.user_id == uid) acc.members)

-- `ListUsers` and `ListGroups`; the tables are in the order of their keys.
abbrev pub list_users : Accounts → List User
list_users acc = acc.users

abbrev pub list_groups : Accounts → List Group
list_groups acc = acc.groups
