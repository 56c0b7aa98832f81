-- ===== src/Perm/Resolve/Chain.antt =====
-- `fetchRows` of server/internal/perm/resolve.go: the rows that reach a target, and those of others.
use mathlib.Core.List.{append_assoc, append-nil}
use file_tag_system.Prelude.{
  ℕ, List, Bool, Bool-cases, select, [], ◌∷◌, ◌++◌, true, false, ◌≡◌, refl, sym, ap, subst, arith,
  some, In, inl, inr, if◌then◌else◌, is_some_of, ==_refl,
}
use file_tag_system.Text.{Text, starts_with}
use file_tag_system.Text.Like.Laws.{Plain, fold_text, like_prefix-Plain, like_prefix_self}
use file_tag_system.Models.{Action, system, storage, file, Permission}
use file_tag_system.Db.{Db, File}
use file_tag_system.Perm.{check}
use file_tag_system.Perm.Rules.{check-silent}
use file_tag_system.Perm.Resolve.{
  is_principal, row_of, joined_file, chain_row, reached, fetch_each, fetch_rows, resolve,
}

abbrev pub with_permission : Db → Permission → Db
with_permission db p = record db { permissions = db.permissions ++ p ∷ [] }

fetch_each-append :
    (files : List File) (u : ℕ) (gs : List ℕ) (sid : ℕ) (t : Text) (ps qs : List Permission)
    → fetch_each files u gs sid t (ps ++ qs)
      ≡ fetch_each files u gs sid t ps ++ fetch_each files u gs sid t qs
unfolding fetch_each
fetch_each-append files u gs sid t [] qs = refl
fetch_each-append files u gs sid t (p ∷ ps) qs =
    simp (fetch_each-append files u gs sid t ps qs, append_assoc)

module _ (db : Db) (u : ℕ) (gs : List ℕ) (sid : ℕ) (t : Text) (p : Permission) where
  -- A permission adds its own rows and no other.
  pub fetch_rows-add :
      fetch_rows (with_permission db p) u gs sid t
      ≡ fetch_rows db u gs sid t ++ reached db.files u gs sid t p
  unfolding fetch_rows
  fetch_rows-add =
      rw (fetch_each-append db.files u gs sid t db.permissions (p ∷ [])) (simp append-nil)

  reached-other : is_principal u gs p ≡ false → reached db.files u gs sid t p ≡ []
  unfolding reached
  reached-other h = rw h

  pub fetch_rows-other :
      is_principal u gs p ≡ false
      → fetch_rows (with_permission db p) u gs sid t ≡ fetch_rows db u gs sid t
  fetch_rows-other h = rw (fetch_rows-add, reached-other h) (append-nil _)

  -- A permission of another subject changes nothing that a subject may do.
  pub resolve-other :
      (a : Action)
      → is_principal u gs p ≡ false
      → resolve (with_permission db p) u gs sid t a ≡ resolve db u gs sid t a
  unfolding resolve
  resolve-other a h = ap (λ rows. check rows a) (fetch_rows-other h)

  -- A permission on a file without `%` and `_` in its path reaches exactly the targets that begin
  -- with this path, up to the case of ASCII letters.
  pub reached-file :
      (f : File)
      → is_principal u gs p ≡ true
      → p.resource_type ≡ file
      → joined_file db.files sid p ≡ some f
      → Plain f.path
      → reached db.files u gs sid t p
        ≡ (if starts_with (fold_text f.path) (fold_text t) then row_of p f.path ∷ [] else [])
  unfolding reached chain_row
  reached-file f h r j plain = rw h (
      subst
        (λ rt.
          chain_row db.files sid t p rt
          ≡ (if starts_with (fold_text f.path) (fold_text t) then row_of p f.path ∷ [] else []))
        (sym r) (rw (j, chain_row, like_prefix-Plain f.path t plain)))

module _ (files : List File) (u : ℕ) (gs : List ℕ) (sid : ℕ) (p : Permission)
    (mine : is_principal u gs p ≡ true) where
  pub reached-system :
      (t : Text) → p.resource_type ≡ system → reached files u gs sid t p ≡ row_of p [] ∷ []
  unfolding reached chain_row
  reached-system t r =
      rw mine (subst (λ rt. chain_row files sid t p rt ≡ row_of p [] ∷ []) (sym r) refl)

  pub reached-storage :
      (t : Text)
      → p.resource_type ≡ storage
      → p.resource_id ≡ some sid
      → reached files u gs sid t p ≡ row_of p [] ∷ []
  unfolding reached chain_row
  reached-storage t r i = rw mine (
      subst (λ rt. chain_row files sid t p rt ≡ row_of p [] ∷ []) (sym r)
        (ground (arith, ap (λ o. is_some_of o sid) i, ==_refl sid)))

  pub reached-own_file :
      (f : File)
      → p.resource_type ≡ file
      → joined_file files sid p ≡ some f
      → reached files u gs sid f.path p ≡ row_of p f.path ∷ []
  unfolding reached chain_row
  reached-own_file f r j = rw mine (
      subst (λ rt. chain_row files sid f.path p rt ≡ row_of p f.path ∷ []) (sym r)
        (rw (j, chain_row, like_prefix_self f.path)))

-- A subject of whom no permission speaks may do nothing.
pub resolve-stranger :
    (db : Db) (u : ℕ) (gs : List ℕ) (sid : ℕ) (t : Text) (a : Action)
    → ((p : Permission) → In p db.permissions → is_principal u gs p ≡ false)
    → resolve db u gs sid t a ≡ false
unfolding resolve fetch_rows
resolve-stranger db u gs sid t a h =
    rw (no_rows db.permissions h) (check-silent [] a (λ r m. elim m [ ]) (λ r m. elim m [ ]))
  where
    no_rows :
        (ps : List Permission)
        → ((p : Permission) → In p ps → is_principal u gs p ≡ false)
        → fetch_each db.files u gs sid t ps ≡ []
    no_rows [] k = refl
    no_rows (p ∷ ps) k = unfold reached in rw (k p (inl refl)) (no_rows ps (λ q m. k q (inr m)))

fetch_each-select :
    (files : List File) (u : ℕ) (gs : List ℕ) (sid : ℕ) (t : Text) (keep : Permission → Bool)
    (ps : List Permission)
    → ((p : Permission) → keep p ≡ false → is_principal u gs p ≡ false)
    → fetch_each files u gs sid t (select keep ps) ≡ fetch_each files u gs sid t ps
unfolding fetch_each reached
fetch_each-select files u gs sid t keep [] h = refl
fetch_each-select files u gs sid t keep (p ∷ ps) h =
    let rest = fetch_each-select files u gs sid t keep ps h in
    elim (Bool-cases (keep p)) [
      | inl y ↦ rw y (ap (λ rows. reached files u gs sid t p ++ rows) rest)
      | inr n ↦ rw (n, h p n) rest
    ]

-- Deleting permissions of other subjects changes nothing that a subject may do.
pub resolve-select :
    (db : Db) (u : ℕ) (gs : List ℕ) (sid : ℕ) (t : Text) (a : Action) (keep : Permission → Bool)
    → ((p : Permission) → keep p ≡ false → is_principal u gs p ≡ false)
    → resolve (record db { permissions = select keep db.permissions }) u gs sid t a
      ≡ resolve db u gs sid t a
unfolding resolve fetch_rows
resolve-select db u gs sid t a keep h =
    ap (λ rows. check rows a) (fetch_each-select db.files u gs sid t keep db.permissions h)
