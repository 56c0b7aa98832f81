-- ===== src/Storage/Local.antt =====
-- server/internal/storage/local.go on a system whose separator is the slash, where `ToSlash` and
-- `FromSlash` change nothing and `VolumeName` is empty. What Go's path/filepath and os do is the
-- record `FileSystem`.
pub mod Containment
use file_tag_system.Prelude.{
  ℕ, zero, suc, List, [], ◌∷◌, ◌++◌, Bool, true, false, ◌&&◌, ◌||◌, ◌==◌, not, ltb, Option, none,
  some, any, if◌then◌else◌,
}
use file_tag_system.Text.{Text, slash, len, text_eq, starts_with}
use file_tag_system.Text.Order.{text_lt}
use file_tag_system.Result.{Result, ok, err, Error, path_escape, not_exist, read_failed, ◌>>=◌}
use file_tag_system.Catalog.{FileInfo}
use file_tag_system.Catalog.Lists.{Disk}
use file_tag_system.Tagging.Effective.{trim_slash}
use file_tag_system.Api.Query.{trim_left, trim_right}

-- What `os.Stat` and `fs.DirEntry.Info` tell.
pub record OsInfo : Type 0 where
  pub name : Text
  pub is_dir : Bool
  pub size : ℕ
  pub modified : Option Text

-- `filepath.Clean`, `filepath.Join`, `filepath.Dir`, `filepath.EvalSymlinks`, `os.Stat` and
-- `os.ReadDir`. An entry that is gone when its metadata is asked for is not in the list.
pub record FileSystem : Type 0 where
  pub abs : Text → Text
  pub clean : Text → Text
  pub join : Text → Text → Text
  pub dir : Text → Text
  pub eval_symlinks : Text → Option Text
  pub stat : Text → Result OsInfo
  pub read_dir : Text → Result (List OsInfo)

pub record LocalProvider : Type 0 where
  pub root : Text
  pub real_root : Text

or_root : Text → Option Text → Text
or_root t none = t
or_root t (some u) = u

-- `NewLocalProvider`, where the working directory is known.
unfoldable pub new_local_provider : FileSystem → Text → LocalProvider
unfolding or_root
new_local_provider fs root =
    let a = fs.clean (fs.abs root) in
    record { root = a; real_root = or_root a (fs.eval_symlinks a) }

-- `withinRoot`
unfoldable pub within_root : Text → Text → Bool
within_root root target = starts_with (trim_slash root ++ slash ∷ []) (target ++ slash ∷ [])

-- The search for the deepest ancestor that can be resolved: whether it is in the root, or none is
-- found. Each turn goes up to the parent, so the length of the path is fuel enough.
ancestor_ok : FileSystem → LocalProvider → ℕ → Text → Bool
unfolding within_root
ancestor_ok fs p zero anc = true
ancestor_ok fs p (suc n) anc =
    let up = ancestor_ok fs p n (fs.dir anc) in
    if ltb (len anc) (len p.root) then true else elim (fs.eval_symlinks anc) [
      | some real ↦ within_root p.real_root real
      | none ↦ if text_eq (fs.dir anc) anc then true else up
    ]

-- The containment of what the symbolic links of the path lead to.
unfoldable pub real_ok : FileSystem → LocalProvider → Text → Option Text → Bool
unfolding ancestor_ok within_root
real_ok fs p abs (some real) = within_root p.real_root real
real_ok fs p abs none = ancestor_ok fs p (suc (len abs)) (fs.dir abs)

-- The location that a path is cleaned and joined to.
unfoldable pub location : FileSystem → LocalProvider → Text → Text
location fs p rel = fs.join p.root (fs.clean (slash ∷ trim_left rel))

-- `resolve`
unfoldable pub resolve_path : FileSystem → LocalProvider → Text → Result Text
unfolding real_ok within_root location
resolve_path fs p rel =
    if any (λ c. ltb c 0x20) rel
    then err path_escape
    else if not (within_root p.root (location fs p rel))
    then err path_escape
    else if not (real_ok fs p (location fs p rel) (fs.eval_symlinks (location fs p rel)))
    then err path_escape
    else ok (location fs p rel)

-- `toFileInfo`
unfoldable pub to_file_info : Text → OsInfo → FileInfo
to_file_info rel info =
    let s = trim_right (trim_left rel) in
    record {
      path = if info.is_dir && not (text_eq s []) then s ++ slash ∷ [] else s;
      is_dir = info.is_dir;
      size = if info.is_dir then 0 else info.size;
      modified = info.modified;
    }

child_path : Text → Text → Text
child_path base name = if text_eq base [] then name else base ++ slash ∷ name

-- The order of `ListDir`: directories first, then by path.
before : FileInfo → FileInfo → Bool
before a b =
    if a.is_dir
    then not b.is_dir || text_lt a.path b.path
    else not b.is_dir && text_lt a.path b.path

insert_info : FileInfo → List FileInfo → List FileInfo
unfolding before
insert_info x [] = x ∷ []
insert_info x (y ∷ ys) = let rest = insert_info x ys in if before y x then y ∷ rest else x ∷ y ∷ ys

unfoldable pub infos : Text → List OsInfo → List FileInfo
unfolding insert_info child_path to_file_info
infos base [] = []
infos base (e ∷ es) = insert_info (to_file_info (child_path base e.name) e) (infos base es)

-- `ListDir`
unfoldable pub list_dir : FileSystem → LocalProvider → Text → Result (List FileInfo)
unfolding resolve_path infos
list_dir fs p rel = do
  abs ← resolve_path fs p rel
  entries ← fs.read_dir abs
  ok (infos (trim_right (trim_left rel)) entries)

-- `Stat`
unfoldable pub stat : FileSystem → LocalProvider → Text → Result FileInfo
unfolding resolve_path to_file_info
stat fs p rel = do abs ← resolve_path fs p rel; info ← fs.stat abs; ok (to_file_info rel info)

-- The disk that the server reads through local providers.
unfoldable pub local_disk : FileSystem → Disk
unfolding list_dir stat new_local_provider
local_disk fs = record {
  stat = λ root rel. stat fs (new_local_provider fs root) rel;
  list_dir = λ root rel. list_dir fs (new_local_provider fs root) rel;
}
