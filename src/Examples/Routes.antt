-- ===== src/Examples/Routes.antt =====
-- Runs of the routes, of the first start and of the local provider. The file system of the examples
-- has a directory `/srv/secret`, and cleans the one path that the requests make.
use file_tag_system.Prelude.{
  ℕ, ◌<◌, List, [], ◌∷◌, ◌++◌, Bool, Bool-cases, true, false, ◌||◌, ◌==◌, Option, none, some, inl,
  inr, ◌≡◌, refl, ap, arith, if◌then◌else◌,
}
use file_tag_system.Text.{Text, slash, len, codes, text_eq, starts_with}
use file_tag_system.Text.Decimal.{value, format_int}
use file_tag_system.Tagging.Effective.{ancestor_paths}
use file_tag_system.Tagging.Effective.Ancestors.{IsAbove, ancestor_paths-iff_IsAbove}
use file_tag_system.Prelude.{◌↔◌, ◌⊎◌, ◌≢◌, In}
use file_tag_system.Api.Query.Numbers.{parse_id2-format_int}
use file_tag_system.Text.Like.{fold_case}
use file_tag_system.Text.Like.Laws.{Plain}
use file_tag_system.Models.{Action, PermSet, Permission, user, file}
use file_tag_system.Result.{ok, err, not_exist}
use file_tag_system.Db.{next_key}
use file_tag_system.Tags.Tree.{IsTree}
use file_tag_system.Perm.Resolve.{resolve, is_principal, joined_file}
use file_tag_system.Perm.Admin.{insert_permission}
use file_tag_system.Auth.Accounts.{User, no_accounts, create_user}
use file_tag_system.Catalog.{join_children}
use file_tag_system.Catalog.Lists.{provider}
use file_tag_system.Storage.Local.{
  FileSystem, OsInfo, LocalProvider, new_local_provider, within_root, location, resolve_path, infos,
  local_disk, real_ok,
}
use file_tag_system.Storage.Local.Containment.{
  IsRooted, PathLaws, Leads, Inside, resolve_path-Inside,
}
use file_tag_system.Tagging.Effective.{trim_slash}
use file_tag_system.Api.{State, Principal, answered, failed, children}
use file_tag_system.Api.Admin.{bootstrap, system_admin}
use file_tag_system.Api.Admin.Seed.{bootstrap-admin}
use file_tag_system.Api.Files.{handle_list_files}
use file_tag_system.Api.Files.Traversal.{handle_list_files-escape}
use file_tag_system.Api.Query.{parse_id2, normalize_dir, trim_left, trim_right}
use file_tag_system.Api.Calls.{
  World, Call, list_users, create_field_value, delete_field_value, serve,
}
use file_tag_system.Api.Calls.Trees.{serve_each, serve_each-IsTree}
use file_tag_system.Api.Calls.Reads.{is_get, Reads, serve-reads}
use file_tag_system.Examples.{bare, entry, empty-IsTree}
use file_tag_system.Examples.Server.{server, world}

abbrev plant : Call
plant =
    create_field_value (some record { field_type_id = 1; parent_id = none; value = codes "Asia" })

abbrev requests : List (World × Option Text × Call)
requests =
    (world, some (codes "t"), plant)
    ∷ (world, none, plant)
    ∷ (world, some (codes "t"), delete_field_value (some 1) [])
    ∷ []

serve_each-IsTree_example : IsTree (serve_each requests server).db.field_values
serve_each-IsTree_example = serve_each-IsTree requests server empty-IsTree

serve-reads_example : Reads list_users server (serve world server (some (codes "t")) list_users).1
serve-reads_example = serve-reads world server (some (codes "t")) list_users (unfold is_get in refl)

abbrev empty_server : State
empty_server = record server { accounts = no_accounts }

abbrev root_user : User
root_user = record {
  id = 1;
  username = codes "root";
  email = codes "root@local";
  password_hash = codes "pw";
  is_active = true;
}

abbrev seeded : State
seeded = record empty_server {
  db = (insert_permission bare (system_admin 1)).1;
  accounts = record no_accounts { users = root_user ∷ [] };
}

bootstrap-admin_example :
    (u : User) × (seeded.accounts.users ≡ u ∷ [])
    × (u.username ≡ codes "root")
    × (u.is_active ≡ true)
    × ((sid : ℕ) (t : Text) (a : Action) → resolve seeded.db u.id [] sid t a ≡ true)
bootstrap-admin_example =
    bootstrap-admin (λ t. some t) empty_server seeded (codes "root") (codes "pw") refl refl
      (unfold bootstrap create_user next_key in refl)

abbrev secret_path : Text
secret_path = codes "public/../secret"

abbrev cleaned : Text → Text
cleaned t = if text_eq t (codes "/public/../secret") then codes "/secret" else t

abbrev key_file : OsInfo
key_file = record { name = codes "key"; is_dir = false; size = 3; modified = none }

abbrev files : FileSystem
files = record {
  abs = λ t. t;
  clean = cleaned;
  join = λ root t. root ++ t;
  dir = λ t. [];
  eval_symlinks = λ t. some t;
  stat = λ t. err not_exist;
  read_dir = λ t. if text_eq t (codes "/srv/secret") then ok (key_file ∷ []) else err not_exist;
}

abbrev local : LocalProvider
local = record { root = codes "/srv"; real_root = codes "/srv" }

abbrev has_slash : Text → Bool
has_slash [] = false
has_slash (c ∷ t) = c == slash || has_slash t

-- What stands before the last slash.
abbrev before_last : Text → Text
before_last [] = []
before_last (c ∷ t) = if has_slash t then c ∷ before_last t else []

abbrev parent : Text → Text
parent [] = []
parent (c ∷ t) = c ∷ before_last t

empty-less : (c : ℕ) (t : Text) → len [] < len (c ∷ t)
unfolding len
empty-less c t = grind arith

cons-less : (c : ℕ) (s t : Text) → len s < len t → len (c ∷ s) < len (c ∷ t)
unfolding len
cons-less c s t h = omega (arith, h)

before_last-shorter : (c : ℕ) (t : Text) → len (before_last (c ∷ t)) < len (c ∷ t)
before_last-shorter c [] = empty-less c []
before_last-shorter c (x ∷ t) = elim (Bool-cases (has_slash (x ∷ t))) [
  | inl y ↦ rw y (cons-less c (before_last (x ∷ t)) (x ∷ t) (before_last-shorter x t))
  | inr n ↦ rw n (empty-less c (x ∷ t))
]

parent-shorter : (t : Text) → IsRooted t → (parent t ≡ t) ⊎ (len (parent t) < len t)
parent-shorter [] (r, e) = inl refl
parent-shorter (c ∷ []) (r, e) = inl refl
parent-shorter (c ∷ x ∷ t) (r, e) =
    inr (cons-less c (before_last (x ∷ t)) (x ∷ t) (before_last-shorter x t))

-- `/srv/link` leads to `/srv/real`, in which there is no `new`.
abbrev linked : FileSystem
linked = record files {
  dir = parent;
  eval_symlinks = λ t.
      if text_eq t (codes "/srv/link/new")
      then none
      else (if text_eq t (codes "/srv/link") then some (codes "/srv/real") else some t);
}

linked-PathLaws : PathLaws linked
linked-PathLaws = record {
  join_rooted = λ root t (r, e). (r ++ t, ap (λ x. x ++ t) e);
  dir_rooted = dir_rooted;
  dir_shorter = parent-shorter;
}
  where
    dir_rooted : (t : Text) → IsRooted t → IsRooted (parent t)
    dir_rooted [] (r, e) = (r, e)
    dir_rooted (c ∷ t) (r, e) = (before_last t, ground arith)

leads : resolve_path linked local (codes "link/new") ≡ ok (codes "/srv/link/new")
unfolding resolve_path location within_root real_ok text_eq starts_with trim_slash trim_left len
leads = refl

resolve_path-Inside_example :
    Inside (codes "/srv") (codes "/srv/link/new")
    × ((real : Text) → Leads linked local (codes "/srv/link/new") real → Inside (codes "/srv") real)
resolve_path-Inside_example =
    resolve_path-Inside linked local (codes "link/new") (codes "/srv/link/new") linked-PathLaws
      (codes "srv", refl) leads

abbrev read_only : PermSet
read_only = record {
  read = true;
  write_meta = false;
  write_file = false;
  manage = false;
  admin = false;
}

abbrev on_public : Permission
on_public = record {
  id = 1;
  principal_type = user;
  principal_id = 5;
  resource_type = file;
  resource_id = some 9;
  grant = read_only;
  is_deny = false;
}

abbrev shared : State
shared = record server {
  db = record bare { files = entry 9 (codes "public/") ∷ []; permissions = on_public ∷ [] };
}

abbrev guest : Principal
guest = record { user_id = 5; groups = [] }

public-Plain : Plain (codes "public/")
public-Plain = (
  (λ e. omega (arith, e)),
  (λ e. omega (arith, e)),
  (
    (λ e. omega (arith, e)),
    (λ e. omega (arith, e)),
    (
      (λ e. omega (arith, e)),
      (λ e. omega (arith, e)),
      (
        (λ e. omega (arith, e)),
        (λ e. omega (arith, e)),
        (
          (λ e. omega (arith, e)),
          (λ e. omega (arith, e)),
          (
            (λ e. omega (arith, e)),
            (λ e. omega (arith, e)),
            ((λ e. omega (arith, e)), (λ e. omega (arith, e)), tt),
          ),
        ),
      ),
    ),
  ),
)

handle_list_files-escape_example :
    (handle_list_files (local_disk files) shared guest (codes "1") secret_path ≡ (
      answered 200 (
          children secret_path (
            join_children shared.db 1
              (infos (trim_right (trim_left secret_path)) (key_file ∷ [])))),
      shared,
    ))
    × (handle_list_files (local_disk files) shared guest (codes "1") (codes "secret")
        ≡ (failed 403 (codes "forbidden"), shared))
unfolding value fold_case
handle_list_files-escape_example =
    handle_list_files-escape shared guest on_public 1 (entry 9 (codes "public/")) refl
      (unfold is_principal in refl) refl (unfold joined_file in refl) public-Plain refl refl files
      (codes "1") secret_path (codes "secret") (codes "/srv") (codes "/srv/secret") (key_file ∷ [])
      (unfold parse_id2 in refl) (unfold provider text_eq in refl) refl
      (unfold trim_left text_eq in refl) (unfold normalize_dir starts_with in refl)
      (unfold normalize_dir starts_with in refl)
      (unfold resolve_path new_local_provider location within_root real_ok text_eq starts_with
          trim_slash trim_left in
        refl)
      (unfold text_eq in refl)

parse_id2-format_int_example : parse_id2 (format_int 42) ≡ some 42
parse_id2-format_int_example = parse_id2-format_int 42

ancestor_paths-iff_IsAbove_example :
    In (codes "a/") (ancestor_paths (codes "a/b"))
    ↔ ((codes "a/b" ≢ []) × ((codes "a/" ≡ codes "a/b") ⊎ IsAbove (codes "a/b") (codes "a/")))
ancestor_paths-iff_IsAbove_example = ancestor_paths-iff_IsAbove (codes "a/b") (codes "a/")
