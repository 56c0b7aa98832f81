-- ===== src/Tagging/Governance/Batch.antt =====
-- `Batch` of server/internal/tags/governance.go and the fields of one value.
use file_tag_system.Prelude.{
  ℕ, ◌==◌, ◌≤◌, List, [], ◌∷◌, ◌≡◌, refl, sym, ap, ◌∙◌, subst, arith, some, length, find,
}
use file_tag_system.Result.{Result, ok, err, ok_injective, >>=-eq-ok}
use file_tag_system.Db.{FieldType, FileField, Db}
use file_tag_system.Tags.{type_of, applied}
use file_tag_system.Catalog.{materialize}
use file_tag_system.Catalog.Materialize.{materialize-tables}
use file_tag_system.Tagging.{clear, apply_tag}
use file_tag_system.Tagging.Apply.{SingleValued, apply_tag-SingleValued}
use file_tag_system.Tagging.Governance.{FieldRef, BatchOp, remove_each, apply_each, one_op, batch}

length-clear :
    (file ft f t : ℕ) (rows : List FileField)
    → length (applied f t (clear file ft rows)) ≤ length (applied f t rows)
length-clear file ft f t [] = omega arith
length-clear file ft f t (r ∷ rows) = ground (arith, length-clear file ft f t rows)

clear-SingleValued :
    (db : Db) (file ft : ℕ)
    → SingleValued db
    → SingleValued (record db { file_fields = clear file ft db.file_fields })
clear-SingleValued db file ft inv id t h single f =
    let before = inv id t h single f in
    let less = length-clear file ft f id db.file_fields in omega (arith, before, less)

remove_each-SingleValued :
    (db : Db) (file : ℕ) (fts : List ℕ) → SingleValued db → SingleValued (remove_each db file fts)
unfolding remove_each
remove_each-SingleValued db file [] inv = inv
remove_each-SingleValued db file (ft ∷ fts) inv =
    remove_each-SingleValued (record db { file_fields = clear file ft db.file_fields }) file fts
      (clear-SingleValued db file ft inv)

apply_each-SingleValued :
    (db db' : Db) (file : ℕ) (refs : List FieldRef)
    → SingleValued db
    → apply_each db file refs ≡ ok db'
    → SingleValued db'
unfolding apply_each
apply_each-SingleValued db db' file [] inv h = subst SingleValued (ok_injective h) inv
apply_each-SingleValued db db' file (a ∷ refs) inv h =
    by_tag (apply_tag db file a.field_type_id a.field_value_id) refl
      (λ d i k. apply_each-SingleValued d db' file refs i k)
  where
    by_tag :
        (r : Result Db)
        → apply_tag db file a.field_type_id a.field_value_id ≡ r
        → ((d : Db) → SingleValued d → apply_each d file refs ≡ ok db' → SingleValued db')
        → SingleValued db'
    by_tag (err e) q next = cc (rw (apply_each, q) at h)
    by_tag (ok d) q next =
        next d (apply_tag-SingleValued db d file a.field_type_id a.field_value_id inv q)
          (rw (apply_each, q) at h)

materialize-tags :
    (db db' : Db) (op : BatchOp) (id : ℕ)
    → materialize db op.storage_id op.fi ≡ ok (id, db')
    → SingleValued db
    → SingleValued db'
materialize-tags db db' op id h inv ft t at single f =
    let (rows, types) = materialize-tables db db' op.storage_id op.fi id h in
    let before : type_of db ft ≡ some t =
      ap (find (λ (x : FieldType). x.id == ft)) (sym types) ∙ at in
    rw (ap (applied f ft) rows) (inv ft t before single f)

one_op-SingleValued :
    (db db' : Db) (op : BatchOp) → SingleValued db → one_op db op ≡ ok db' → SingleValued db'
unfolding one_op
one_op-SingleValued db db' op inv h =
    let (r, m, k) = >>=-eq-ok (materialize db op.storage_id op.fi) _ h in
    apply_each-SingleValued (remove_each r.1 r.0 op.remove) db' r.0 op.apply
      (remove_each-SingleValued r.1 r.0 op.remove (materialize-tags db r.1 op r.0 m inv)) k

-- A batch over many targets keeps every field of one value single on every file.
pub batch-SingleValued :
    (db db' : Db) (ops : List BatchOp) → SingleValued db → batch db ops ≡ ok db' → SingleValued db'
unfolding batch
batch-SingleValued db db' [] inv h = subst SingleValued (ok_injective h) inv
batch-SingleValued db db' (op ∷ ops) inv h =
    by_op (one_op db op) refl (λ d i k. batch-SingleValued d db' ops i k)
  where
    by_op :
        (r : Result Db)
        → one_op db op ≡ r
        → ((d : Db) → SingleValued d → batch d ops ≡ ok db' → SingleValued db')
        → SingleValued db'
    by_op (err e) q next = cc (rw (batch, q) at h)
    by_op (ok d) q next = next d (one_op-SingleValued db d op inv q) (rw (batch, q) at h)
