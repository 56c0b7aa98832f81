-- ===== src/Tagging/Same.antt =====
-- The operations of tagging and catalog that leave the table of values as it was.
use file_tag_system.Prelude.{
  ℕ, List, [], ◌∷◌, ◌++◌, Bool, true, false, ◌&&◌, ◌≡◌, refl, ◌∙◌, subst, Option, none, some, find,
  any, if◌then◌else◌,
}
use file_tag_system.Text.{Text}
use file_tag_system.Result.{
  Result, ok, err, guard, constraint, no_rows, not_found, ok_injective, found, ◌>>=◌, ◌>>◌,
}
use file_tag_system.Db.{File, FileField, Db}
use file_tag_system.Db.Cascade.{has_storage, has_file, has_type, has_value}
use file_tag_system.Tags.{type_of}
use file_tag_system.Catalog.{
  FileInfo, materialize, insert_file, at_path, new_file, set_thumbnail_by_id,
}
use file_tag_system.Tagging.{apply_tag, apply_by_path, insert_tag, clear, is_row, tag_row}
use file_tag_system.Tagging.Governance.{FieldRef, BatchOp, remove_each, apply_each, one_op, batch}

-- What a call gives, if it succeeds, has a property.
abbrev pub Gives {ℓ κ} : {T : Type ℓ} → (T → Type κ) → Result T → Type (ℓ ⊔ κ)
Gives {T} P m = (t : T) → m ≡ ok t → P t

pub ok-Gives {ℓ κ} : {T : Type ℓ} (P : T → Type κ) (t : T) → P t → Gives P (ok t)
ok-Gives P t h u e = subst P (ok_injective e) h

pub >>=-Gives {ℓ κ μ} :
    {T : Type ℓ} {U : Type κ} (P : T → Type μ) (Q : U → Type μ) (m : Result T) (next : T → Result U)
    → Gives P m
    → ((t : T) → P t → Gives Q (next t))
    → Gives Q (m >>= next)
>>=-Gives P Q (err e) next h k = λ u eq. cc
>>=-Gives P Q (ok t) next h k = k t (h t refl)

-- A step of which nothing need be known.
pub step-Gives {ℓ κ μ} :
    {T : Type ℓ} {U : Type κ} (Q : U → Type μ) (m : Result T) (next : T → Result U)
    → ((t : T) → m ≡ ok t → Gives Q (next t))
    → Gives Q (m >>= next)
step-Gives Q (err e) next k = λ u eq. cc
step-Gives Q (ok t) next k = k t refl

-- The values as they were.
abbrev pub SameValues : Db → Db → Type 0
SameValues db db' = db'.field_values ≡ db.field_values

if-Gives {ℓ κ} :
    {T : Type ℓ} (P : T → Type κ) (t : Bool) (x y : Result T)
    → Gives P x
    → Gives P y
    → Gives P (if t then x else y)
if-Gives P true x y h k = h
if-Gives P false x y h k = k

insert_tag-same :
    (db : Db) (rows : List FileField) (f t v : ℕ) → Gives (SameValues db) (insert_tag db rows f t v)
unfolding insert_tag
insert_tag-same db rows f t v =
    if-Gives (SameValues db) (any (is_row f t v) rows) _ _ (ok-Gives _ _ refl) (
      step-Gives (SameValues db)
        (guard (has_file db.files f && has_type db.field_types t && has_value db.field_values v)
          constraint)
        (λ _. ok (record db { file_fields = rows ++ tag_row f t v ∷ [] }))
        (λ _ _. ok-Gives _ _ refl))

pub apply_tag-same : (db : Db) (f t v : ℕ) → Gives (SameValues db) (apply_tag db f t v)
unfolding apply_tag
apply_tag-same db f t v =
    step-Gives (SameValues db) (found no_rows (type_of db t)) _ (λ y _. insert_tag-same db _ f t v)

insert_file-same :
    (db : Db) (sid : ℕ) (fi : FileInfo) → Gives (SameValues db) (insert_file db sid fi)
unfolding insert_file
insert_file-same db sid fi = by_row (find (at_path sid fi.path) db.files)
  where
    by_row :
        (o : Option File)
        → Gives (SameValues db) (elim o [
          | some f ↦ ok db
          | none ↦
              guard (has_storage db.storage_providers sid) constraint
              >> ok (record db { files = db.files ++ new_file db sid fi ∷ [] })
        ])
    by_row none =
        step-Gives (SameValues db) (guard (has_storage db.storage_providers sid) constraint)
          (λ _. ok (record db { files = db.files ++ new_file db sid fi ∷ [] }))
          (λ _ _. ok-Gives _ _ refl)
    by_row (some f) = ok-Gives _ _ refl

materialize-same :
    (db : Db) (sid : ℕ) (fi : FileInfo) → Gives (λ r. SameValues db r.1) (materialize db sid fi)
unfolding materialize
materialize-same db sid fi =
    >>=-Gives (SameValues db) (λ r. SameValues db r.1) (insert_file db sid fi) _
      (insert_file-same db sid fi)
      (λ d same.
        step-Gives {U = ℕ × Db} (λ r. SameValues db r.1)
          (found not_found (find (at_path sid fi.path) d.files)) (λ f. ok (f.id, d))
          (λ _ _. ok-Gives _ _ same))

pub apply_by_path-same :
    (db : Db) (sid : ℕ) (fi : FileInfo) (t v : ℕ)
    → Gives (λ r. SameValues db r.1) (apply_by_path db sid fi t v)
unfolding apply_by_path
apply_by_path-same db sid fi t v =
    >>=-Gives (λ r. SameValues db r.1) (λ r. SameValues db r.1) (materialize db sid fi) _
      (materialize-same db sid fi)
      (λ r same.
        >>=-Gives (SameValues r.1) (λ q. SameValues db q.1) (apply_tag r.1 r.0 t v) _
          (apply_tag-same r.1 r.0 t v) (λ d k. ok-Gives _ _ (k ∙ same)))

remove_each-same : (db : Db) (id : ℕ) (ts : List ℕ) → SameValues db (remove_each db id ts)
unfolding remove_each
remove_each-same db id [] = refl
remove_each-same db id (t ∷ ts) =
    remove_each-same (record db { file_fields = clear id t db.file_fields }) id ts

-- The steps of a loop, each of which leaves the values.
then-same :
    (db : Db) (first : Result Db) (next : Db → Result Db)
    → Gives (SameValues db) first
    → ((d : Db) → Gives (SameValues d) (next d))
    → Gives (SameValues db) (elim first [ err e ↦ err e | ok d ↦ next d ])
then-same db (err e) next h k = λ u eq. cc
then-same db (ok d) next h k = λ u eq. k d u eq ∙ h d refl

apply_each-same :
    (db : Db) (id : ℕ) (rs : List FieldRef) → Gives (SameValues db) (apply_each db id rs)
unfolding apply_each
apply_each-same db id [] = ok-Gives _ _ refl
apply_each-same db id (a ∷ rs) =
    then-same db (apply_tag db id a.field_type_id a.field_value_id) (λ d. apply_each d id rs)
      (apply_tag-same db id a.field_type_id a.field_value_id) (λ d. apply_each-same d id rs)

one_op-same : (db : Db) (op : BatchOp) → Gives (SameValues db) (one_op db op)
unfolding one_op
one_op-same db op =
    >>=-Gives (λ r. SameValues db r.1) (SameValues db) (materialize db op.storage_id op.fi) _
      (materialize-same db op.storage_id op.fi)
      (λ r same.
        subst
          (λ vs.
            Gives (λ d. d.field_values ≡ vs)
              (apply_each (remove_each r.1 r.0 op.remove) r.0 op.apply))
          (remove_each-same r.1 r.0 op.remove ∙ same)
          (apply_each-same (remove_each r.1 r.0 op.remove) r.0 op.apply))

pub batch-same : (db : Db) (ops : List BatchOp) → Gives (SameValues db) (batch db ops)
unfolding batch
batch-same db [] = ok-Gives _ _ refl
batch-same db (op ∷ ops) =
    then-same db (one_op db op) (λ d. batch d ops) (one_op-same db op) (λ d. batch-same d ops)

pub set_thumbnail_by_id-same :
    (db : Db) (id : ℕ) (path : Text) → Gives (SameValues db) (set_thumbnail_by_id db id path)
unfolding set_thumbnail_by_id
set_thumbnail_by_id-same db id path =
    step-Gives (SameValues db) (guard (has_file db.files id) not_found) _ (λ _ _. ok-Gives _ _ refl)
