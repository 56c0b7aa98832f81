-- ===== src/Perm/Resolve.antt =====
-- server/internal/perm/resolve.go: the rows of a subject along the chain of a target, by the one
-- query of `fetchRows`, and the checks on them.
pub mod Chain
use file_tag_system.Prelude.{
  ℕ, List, [], ◌∷◌, ◌++◌, Bool, true, false, ◌&&◌, ◌||◌, ◌==◌, Option, none, some, any, find,
  is_some_of, if◌then◌else◌,
}
use file_tag_system.Text.{Text}
use file_tag_system.Text.Like.{like_prefix}
use file_tag_system.Models.{
  Action, PrincipalType, ResourceType, system, storage, file, user, group, PermSet, Permission, has,
}
use file_tag_system.Db.{Db, File}
use file_tag_system.Prelude.{◌≡◌}
use file_tag_system.Perm.{Row, check, effective}
use file_tag_system.Perm.Rules.{has-effective}

unfoldable pub principal_of : PrincipalType → ℕ → ℕ → List ℕ → Bool
principal_of user id user_id groups = id == user_id
principal_of group id user_id groups = any (λ g. id == g) groups
principal_of (PrincipalType.other t) id user_id groups = false

-- `(principal_type='user' AND …) OR (principal_type='group' AND principal_id IN (…))`
unfoldable pub is_principal : ℕ → List ℕ → Permission → Bool
unfolding principal_of
is_principal user_id groups p = principal_of p.principal_type p.principal_id user_id groups

unfoldable pub row_of : Permission → Text → Row
row_of p path = record {
  resource_type = p.resource_type;
  path = path;
  grant = p.grant;
  is_deny = p.is_deny;
}

-- The `LEFT JOIN`: the file of a file row, if it is in the storage.
unfoldable pub joined_file : List File → ℕ → Permission → Option File
joined_file files sid p =
    find (λ (f : File). is_some_of p.resource_id f.id && f.storage_id == sid) files

-- The part of the `WHERE` that is about the resource, with the row that is selected.
chain_row : List File → ℕ → Text → Permission → ResourceType → List Row
chain_row files sid target p system = row_of p [] ∷ []
chain_row files sid target p storage = if is_some_of p.resource_id sid then row_of p [] ∷ [] else []
chain_row files sid target p file = elim (joined_file files sid p) [
  | none ↦ []
  | some f ↦ if like_prefix f.path target then row_of p f.path ∷ [] else []
]
chain_row files sid target p (ResourceType.other t) = []

-- What one row of `permissions` gives to the result of the query.
unfoldable pub reached : List File → ℕ → List ℕ → ℕ → Text → Permission → List Row
unfolding chain_row row_of is_principal
reached files user_id groups sid target p =
    if is_principal user_id groups p then chain_row files sid target p p.resource_type else []

unfoldable pub fetch_each : List File → ℕ → List ℕ → ℕ → Text → List Permission → List Row
fetch_each files user_id groups sid target [] = []
fetch_each files user_id groups sid target (p ∷ ps) =
    reached files user_id groups sid target p ++ fetch_each files user_id groups sid target ps

unfoldable pub fetch_rows : Db → ℕ → List ℕ → ℕ → Text → List Row
unfolding fetch_each reached joined_file
fetch_rows db user_id groups sid target =
    fetch_each db.files user_id groups sid target db.permissions

unfoldable pub resolve : Db → ℕ → List ℕ → ℕ → Text → Action → Bool
unfolding fetch_rows check
resolve db user_id groups sid target a = check (fetch_rows db user_id groups sid target) a

unfoldable pub resolve_effective : Db → ℕ → List ℕ → ℕ → Text → PermSet
unfolding fetch_rows effective
resolve_effective db user_id groups sid target = effective (fetch_rows db user_id groups sid target)

-- The set that `ResolveEffective` returns has exactly the actions that `Resolve` permits.
pub has-resolve_effective :
    (db : Db) (u : ℕ) (gs : List ℕ) (sid : ℕ) (t : Text) (a : Action)
    → has (resolve_effective db u gs sid t) a ≡ resolve db u gs sid t a
unfolding resolve_effective resolve
has-resolve_effective db u gs sid t a = has-effective (fetch_rows db u gs sid t) a
