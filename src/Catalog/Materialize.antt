-- ===== src/Catalog/Materialize.antt =====
-- `materializeTx` of server/internal/catalog/catalog.go: the rows of paths.
use file_tag_system.Prelude.{
  ℕ, List, [], ◌∷◌, ◌++◌, true, ◌≡◌, inl, inr, refl, sym, ap, ◌∙◌, subst, arith, Option, none, some,
  In, In-append_left, In-append_cases, find, find-some, find-none, ==_refl, ==_iff,
}
use file_tag_system.Text.{Text}
use file_tag_system.Text.Laws.{text_eq_iff, text_eq_refl}
use file_tag_system.Result.{
  ok, not_found, constraint, found, >>=-eq-ok, ok_injective, guard-eq-ok, found-eq-ok,
}
use file_tag_system.Db.{File, Db}
use file_tag_system.Db.Cascade.{has_storage}
use file_tag_system.Catalog.{FileInfo, at_path, new_file, insert_file, materialize}

-- The column constraint `UNIQUE (storage_id, path)`.
abbrev pub UniquePaths : List File → Type 0
UniquePaths files =
    (f g : File) → In f files → In g files → f.storage_id ≡ g.storage_id → f.path ≡ g.path → f ≡ g

new_file-at_path :
    (db : Db) (sid : ℕ) (fi : FileInfo) → at_path sid fi.path (new_file db sid fi) ≡ true
unfolding new_file
new_file-at_path db sid fi = rw (==_refl sid, text_eq_refl fi.path)

-- The insert leaves a table that holds the row it looks up, and all rows from before.
data Inserted (db : Db) (sid : ℕ) (fi : FileInfo) (db' : Db) : Type 0 where
  known :
      (f : File) → find (at_path sid fi.path) db.files ≡ some f → db' ≡ db → Inserted db sid fi db'
  fresh :
      find (at_path sid fi.path) db.files ≡ none
      → has_storage db.storage_providers sid ≡ true
      → db' ≡ record db { files = db.files ++ new_file db sid fi ∷ [] }
      → Inserted db sid fi db'

insert_file-Inserted :
    (db db' : Db) (sid : ℕ) (fi : FileInfo)
    → insert_file db sid fi ≡ ok db'
    → Inserted db sid fi db'
unfolding insert_file
insert_file-Inserted db db' sid fi h = go (find (at_path sid fi.path) db.files) refl
  where
    go : (o : Option File) → find (at_path sid fi.path) db.files ≡ o → Inserted db sid fi db'
    go none e =
        let (s, done) =
          guard-eq-ok (has_storage db.storage_providers sid) constraint _
            (rw (e, insert_file) at h) in
        fresh e s (sym (ok_injective done))
    go (some f) e = known f e (sym (ok_injective (rw (e, insert_file) at h)))

-- A successful `materializeTx` in its two steps.
materialize-inv :
    (db db' : Db) (sid : ℕ) (fi : FileInfo) (id : ℕ)
    → materialize db sid fi ≡ ok (id, db')
    → Inserted db sid fi db'
      × ((f : File) × (find (at_path sid fi.path) db'.files ≡ some f) × (f.id ≡ id))
unfolding materialize
materialize-inv db db' sid fi id h =
    let (d, i, k) = >>=-eq-ok (insert_file db sid fi) _ h in
    let (f, l, done) = >>=-eq-ok (found not_found (find (at_path sid fi.path) d.files)) _ k in
    let e = ok_injective done in
    let same : d ≡ db' = ap (λ (r : ℕ × Db). r.1) e in
    (
      subst (Inserted db sid fi) same (insert_file-Inserted db d sid fi i),
      (
        f,
        subst (λ x. find (at_path sid fi.path) x.files ≡ some f) same (found-eq-ok not_found _ l),
        ap (λ (r : ℕ × Db). r.0) e,
      ),
    )

-- Only the table of files changes.
pub materialize-tables :
    (db db' : Db) (sid : ℕ) (fi : FileInfo) (id : ℕ)
    → materialize db sid fi ≡ ok (id, db')
    → (db'.file_fields ≡ db.file_fields) × (db'.field_types ≡ db.field_types)
materialize-tables db db' sid fi id h = by_insert (materialize-inv db db' sid fi id h).0
  where
    by_insert :
        Inserted db sid fi db'
        → (db'.file_fields ≡ db.file_fields) × (db'.field_types ≡ db.field_types)
    by_insert (known f e d) = rw d (refl, refl)
    by_insert (fresh e s d) = rw d (refl, refl)

insert_file-known :
    (db : Db) (sid : ℕ) (fi : FileInfo) (f : File)
    → find (at_path sid fi.path) db.files ≡ some f
    → insert_file db sid fi ≡ ok db
unfolding insert_file
insert_file-known db sid fi f h = rw (h, insert_file)

materialize-known :
    (db : Db) (sid : ℕ) (fi : FileInfo) (f : File)
    → find (at_path sid fi.path) db.files ≡ some f
    → materialize db sid fi ≡ ok (f.id, db)
unfolding materialize
materialize-known db sid fi f h = rw (insert_file-known db sid fi f h, h)

at_path-elim :
    (sid : ℕ) (path : Text) (f : File)
    → at_path sid path f ≡ true
    → (f.storage_id ≡ sid) × (f.path ≡ path)
at_path-elim sid path f h =
    (ground (arith, ==_iff f.storage_id sid), (text_eq_iff f.path path).0 (ground arith))

new_file-fields :
    (db : Db) (sid : ℕ) (fi : FileInfo)
    → ((new_file db sid fi).storage_id ≡ sid) × ((new_file db sid fi).path ≡ fi.path)
unfolding new_file
new_file-fields db sid fi = (refl, refl)

UniquePaths-add :
    (db : Db) (sid : ℕ) (fi : FileInfo)
    → UniquePaths db.files
    → find (at_path sid fi.path) db.files ≡ none
    → UniquePaths (db.files ++ new_file db sid fi ∷ [])
UniquePaths-add db sid fi unique absent f g m k s p = elim (In-append_cases f db.files _ m) [
  | inl i ↦ elim (In-append_cases g db.files _ k) [
    | inl j ↦ unique f g i j s p
    | inr (inl e) ↦
        absurd (clash f i (s ∙ ap (λ (x : File). x.storage_id) e) (p ∙ ap (λ (x : File). x.path) e))
    | inr (inr e) ↦ elim e [ ]
  ]
  | inr (inl e) ↦ elim (In-append_cases g db.files _ k) [
    | inl j ↦ absurd (
        clash g j (sym s ∙ ap (λ (x : File). x.storage_id) e) (sym p ∙ ap (λ (x : File). x.path) e))
    | inr (inl q) ↦ e ∙ sym q
    | inr (inr q) ↦ elim q [ ]
  ]
  | inr (inr e) ↦ elim e [ ]
]
  where
    clash :
        (x : File)
        → In x db.files
        → x.storage_id ≡ (new_file db sid fi).storage_id
        → x.path ≡ (new_file db sid fi).path
        → ⊥
    clash x i s p =
        let t : at_path sid fi.path x ≡ true =
          (ground (
            arith,
            s,
            (new_file-fields db sid fi).0,
            (text_eq_iff x.path fi.path).1 (p ∙ (new_file-fields db sid fi).1),
          )) in
        cc (t, find-none (at_path sid fi.path) x db.files i absent)

-- A materialized path has one row: the number returned is that of a row at the path, every row from
-- before is still there, and paths stay unique; doing it again, with whatever metadata, returns the
-- same number and changes nothing.
pub materialize-row :
    (db db' : Db) (sid : ℕ) (fi again : FileInfo) (id : ℕ)
    → UniquePaths db.files
    → materialize db sid fi ≡ ok (id, db')
    → again.path ≡ fi.path
    → UniquePaths db'.files
      × ((f : File) × In f db'.files × (f.id ≡ id) × (f.storage_id ≡ sid) × (f.path ≡ fi.path))
      × ((g : File) → In g db.files → In g db'.files)
      × (materialize db' sid again ≡ ok (id, db'))
materialize-row db db' sid fi again id unique h same =
    let (ins, row) = materialize-inv db db' sid fi id h in
    let (f, at, i) = row in
    let (m, t) = find-some (at_path sid fi.path) f db'.files at in
    let (s, p) = at_path-elim sid fi.path f t in
    (
      paths ins,
      (f, m, i, s, p),
      keeps ins,
      materialize-known db' sid again f (rw same at) ∙ ap (λ n. ok (n, db')) i,
    )
  where
    paths : Inserted db sid fi db' → UniquePaths db'.files
    paths (known f e d) = rw d unique
    paths (fresh e s d) = rw d (UniquePaths-add db sid fi unique e)

    keeps : Inserted db sid fi db' → (g : File) → In g db.files → In g db'.files
    keeps (known f e d) g m = rw d m
    keeps (fresh e s d) g m = rw d (In-append_left g db.files _ m)
