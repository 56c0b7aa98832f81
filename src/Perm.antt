-- ===== src/Perm.antt =====
-- server/internal/perm/perm.go: the walk over the permission rows of a target, from the most
-- specific level to the least.
pub mod Order
pub mod Walk
pub mod Rules
pub mod Resolve
pub mod Admin
use file_tag_system.Prelude.{
  ℕ, zero, suc, List, [], ◌∷◌, Bool, true, false, ◌&&◌, ◌||◌, ltb, ◌==◌, if◌then◌else◌, length, not,
}
use file_tag_system.Text.{Text, len}
use file_tag_system.Models.{
  Action, read, write_meta, write_file, manage, admin, ResourceType, system, storage, file, PermSet,
  has,
}

pub record Row : Type 0 where
  pub resource_type : ResourceType
  pub path : Text
  pub grant : PermSet
  pub is_deny : Bool

pub data Decision : Type 0 where
  undecided allow deny : Decision

class_of : ResourceType → Text → ℕ × ℕ
class_of file path = (3, len path)
class_of storage path = (2, 0)
class_of system path = (1, 0)
class_of (ResourceType.other t) path = (0, 0)

-- The class of a row and the length of its path.
unfoldable pub specificity : Row → ℕ × ℕ
unfolding class_of
specificity r = class_of r.resource_type r.path

-- The comparison that `sort.SliceStable` is given.
unfoldable pub more_specific : Row → Row → Bool
more_specific r s =
    let (ci, pi) = specificity r in
    let (cj, pj) = specificity s in if not (ci == cj) then ltb cj ci else ltb pj pi

-- A stable sort: a row goes behind those that are more specific, and before its equals.
insert : Row → List Row → List Row
insert r [] = r ∷ []
insert r (s ∷ rows) = if more_specific s r then s ∷ insert r rows else r ∷ s ∷ rows

unfoldable pub slice_stable : List Row → List Row
unfolding insert more_specific specificity
slice_stable [] = []
slice_stable (r ∷ rows) = insert r (slice_stable rows)

unfoldable pub same_level : Row → Row → Bool
same_level r s =
    let (ci, pi) = specificity r in let (cj, pj) = specificity s in ci == cj && pi == pj

-- The inner loop: it reads the rows at the level of `r`, with `sawGrant` and `sawDeny`, and
-- returns these two and the rows that are left.
scan_level : Action → Row → List Row → Bool → Bool → Bool × Bool × List Row
scan_level a r [] saw_grant saw_deny = (saw_grant, saw_deny, [])
scan_level a r (s ∷ rows) saw_grant saw_deny = elim (same_level r s) [
  | false ↦ (saw_grant, saw_deny, s ∷ rows)
  | true ↦
      scan_level a r rows (if has s.grant a && not s.is_deny then true else saw_grant)
        (if has s.grant a && s.is_deny then true else saw_deny)
]

-- The outer loop. Each round takes at least one row, so the number of rows is fuel enough.
walk : ℕ → Action → List Row → Decision
unfolding scan_level same_level
walk zero a rows = undecided
walk (suc fuel) a [] = undecided
walk (suc fuel) a (r ∷ rows) =
    let (saw_grant, saw_deny, rest) = scan_level a r (r ∷ rows) false false in
    let more = walk fuel a rest in if saw_deny then deny else if saw_grant then allow else more

unfoldable pub resolve_action : List Row → Action → Decision
unfolding walk slice_stable
resolve_action rows a = walk (length rows) a (slice_stable rows)

is_allow : Decision → Bool
is_allow undecided = false
is_allow allow = true
is_allow deny = false

is_admin : Action → Bool
is_admin read = false
is_admin write_meta = false
is_admin write_file = false
is_admin manage = false
is_admin admin = true

-- The `switch` of `Check`; the last argument is the decision on `admin`.
decide : Decision → Action → Decision → Bool
unfolding is_allow is_admin
decide allow a fallback = true
decide deny a fallback = false
decide undecided a fallback = if is_admin a then false else is_allow fallback

unfoldable pub check : List Row → Action → Bool
unfolding decide resolve_action
check rows a = decide (resolve_action rows a) a (resolve_action rows admin)

unfoldable pub effective : List Row → PermSet
effective rows = record {
  read = check rows read;
  write_meta = check rows write_meta;
  write_file = check rows write_file;
  manage = check rows manage;
  admin = check rows admin;
}
