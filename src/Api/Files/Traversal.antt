-- ===== src/Api/Files/Traversal.antt =====
-- The check of `handleListFiles` (server/internal/api/handlers_files.go) against the path that
-- server/internal/storage/local.go makes of the request: one is about the text of the request, the
-- other about that text cleaned.
use file_tag_system.Prelude.{
  ℕ, List, [], ◌∷◌, true, false, ◌≡◌, refl, ap, ◌∙◌, some, any, ltb, Bool-cases, inl, inr, In,
  if◌then◌else◌,
}
use mathlib.Core.List.{append-nil}
use file_tag_system.Text.{Text, codes, slash, starts_with}
use file_tag_system.Text.Like.Laws.{Plain, fold_text}
use file_tag_system.Models.{Action, Permission, read, file, has}
use file_tag_system.Result.{ok}
use file_tag_system.Db.{File}
use file_tag_system.Perm.{Row, check, more_specific}
use file_tag_system.Perm.Order.{more_specific_refl}
use file_tag_system.Perm.Walk.{granted}
use file_tag_system.Perm.Rules.{check_iff}
use file_tag_system.Perm.Resolve.{
  is_principal, joined_file, row_of, fetch_each, fetch_rows, resolve,
}
use file_tag_system.Perm.Resolve.Chain.{reached-file}
use file_tag_system.Catalog.{join_children}
use file_tag_system.Catalog.Lists.{list_children, provider}
use file_tag_system.Storage.Local.{
  LocalProvider, FileSystem, OsInfo, new_local_provider, location, resolve_path, infos, list_dir,
  local_disk,
}
use file_tag_system.Api.{State, Principal, failed, answered, children, can}
use file_tag_system.Api.Query.{parse_id2, normalize_dir, trim_left, trim_right}
use file_tag_system.Api.Files.{handle_list_files}

check-granted :
    (r : Row) (a : Action) → has r.grant a ≡ true → r.is_deny ≡ false → check (r ∷ []) a ≡ true
check-granted r a g d =
    (check_iff (r ∷ []) a).1 (
      inl (granted r (inl refl) g only (λ s m _ _. elim m [ inl e ↦ rw e d | inr k ↦ elim k [ ] ])))
  where
    only : (s : Row) → In s (r ∷ []) → has s.grant a ≡ true → more_specific s r ≡ false
    only s (inl e) h = rw e (more_specific_refl r)
    only s (inr m) h = elim m [ ]

-- Texts that are cleaned to the same path lead to the same place.
resolve_path-same :
    (fs : FileSystem) (lp : LocalProvider) (a b abs : Text)
    → any (λ c. ltb c 0x20) a ≡ false
    → fs.clean (slash ∷ trim_left a) ≡ fs.clean (slash ∷ trim_left b)
    → resolve_path fs lp b ≡ ok abs
    → resolve_path fs lp a ≡ ok abs
unfolding resolve_path
resolve_path-same fs lp a b abs clear same h = elim (Bool-cases (any (λ c. ltb c 0x20) b)) [
  | inl y ↦ cc (rw y at h)
  | inr n ↦ rw (clear, place) (rw n at h)
]
  where
    place : location fs lp a ≡ location fs lp b
    place = unfold location in ap (fs.join lp.root) same

-- A user whose one permission is on a file.
module _ (s : State) (p : Principal) (perm : Permission) (sid : ℕ) (f : File)
    (one : s.db.permissions ≡ perm ∷ []) (mine : is_principal p.user_id p.groups perm ≡ true)
    (on_file : perm.resource_type ≡ file) (joined : joined_file s.db.files sid perm ≡ some f)
    (plain : Plain f.path) (reads : perm.grant.read ≡ true) (grants : perm.is_deny ≡ false) where
  rows_at :
      (t : Text)
      → fetch_rows s.db p.user_id p.groups sid t
        ≡ (if starts_with (fold_text f.path) (fold_text t) then row_of perm f.path ∷ [] else [])
  unfolding fetch_rows fetch_each
  rows_at t =
      rw one
        (append-nil _ ∙ reached-file s.db p.user_id p.groups sid t perm f mine on_file joined plain)

  may_below :
      (t : Text) → starts_with (fold_text f.path) (fold_text t) ≡ true → can s p sid t read ≡ true
  unfolding resolve
  may_below t h =
      rw (rows_at t, h)
        (check-granted (row_of perm f.path) read (unfold row_of has in reads)
          (unfold row_of in grants))

  may_not_beside :
      (t : Text) → starts_with (fold_text f.path) (fold_text t) ≡ false → can s p sid t read ≡ false
  unfolding resolve
  may_not_beside t h = rw (rows_at t, h) refl

  -- A user whose only right is to read what is below one path lists a directory elsewhere in the
  -- storage by a text that begins with this path and that cleaning turns into the directory (as
  -- `public/../secret` does), while under its own name the directory is forbidden to that user.
  pub handle_list_files-escape :
      (fs : FileSystem) (storage_id a b root abs : Text) (entries : List OsInfo)
      → parse_id2 storage_id ≡ some sid
      → provider s.db sid ≡ ok root
      → any (λ c. ltb c 0x20) a ≡ false
      → fs.clean (slash ∷ trim_left a) ≡ fs.clean (slash ∷ trim_left b)
      → starts_with (fold_text f.path) (fold_text (normalize_dir a)) ≡ true
      → starts_with (fold_text f.path) (fold_text (normalize_dir b)) ≡ false
      → resolve_path fs (new_local_provider fs root) b ≡ ok abs
      → fs.read_dir abs ≡ ok entries
      → (handle_list_files (local_disk fs) s p storage_id a ≡ (
        answered 200
            (children a (join_children s.db sid (infos (trim_right (trim_left a)) entries))),
        s,
      ))
        × (handle_list_files (local_disk fs) s p storage_id b ≡ (failed 403 (codes "forbidden"), s))
  unfolding handle_list_files list_children local_disk list_dir
  handle_list_files-escape fs storage_id a b root abs entries number here clear same under beside
        leads listed =
      let seen = resolve_path-same fs (new_local_provider fs root) a b abs clear same leads in
      (
        rw (number, may_below (normalize_dir a) under, here, seen, listed) refl,
        rw (number, may_not_beside (normalize_dir b) beside) refl,
      )
