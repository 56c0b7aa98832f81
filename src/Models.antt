-- ===== src/Models.antt =====
-- server/internal/models/models.go: the permission vocabulary. An action is one of the five
-- constants; a resource or principal type read from a request may be any text, which `other` stands
-- for.
pub mod Coverage
use file_tag_system.Prelude.{
  ℕ, List, [], ◌∷◌, Bool, true, false, ◌&&◌, ◌||◌, not, Option, if◌then◌else◌,
}
use file_tag_system.Text.{Text}

pub data Action : Type 0 where
  read write_meta write_file manage admin : Action

abbrev pub all_actions : List Action
all_actions = read ∷ write_meta ∷ write_file ∷ manage ∷ admin ∷ []

pub data ResourceType : Type 0 where
  system storage file : ResourceType
  other : Text → ResourceType

pub data PrincipalType : Type 0 where
  user group : PrincipalType
  other : Text → PrincipalType

pub record PermSet : Type 0 where
  pub read : Bool
  pub write_meta : Bool
  pub write_file : Bool
  pub manage : Bool
  pub admin : Bool

-- `PermSet.Has`
unfoldable pub has : PermSet → Action → Bool
has s read = s.read
has s write_meta = s.write_meta
has s write_file = s.write_file
has s manage = s.manage
has s admin = s.admin

-- The loop of `PermSet.Covers` over the actions.
covers_each : PermSet → PermSet → List Action → Bool
covers_each s o [] = true
covers_each s o (a ∷ rest) = if has o a && not (has s a) then false else covers_each s o rest

-- `s.Covers(other)`
unfoldable pub covers : PermSet → PermSet → Bool
unfolding covers_each has
covers s o = covers_each s o all_actions

-- `PermSet.Any`
unfoldable pub any_action : PermSet → Bool
any_action s = s.read || s.write_meta || s.write_file || s.manage || s.admin

-- One row of the `permissions` table.
pub record Permission : Type 0 where
  pub id : ℕ
  pub principal_type : PrincipalType
  pub principal_id : ℕ
  pub resource_type : ResourceType
  pub resource_id : Option ℕ
  pub grant : PermSet
  pub is_deny : Bool
