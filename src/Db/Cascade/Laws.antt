-- ===== src/Db/Cascade/Laws.antt =====
-- Lemmas on `cascade`: what a delete takes along, and the references that are left.
use file_tag_system.Prelude.{
  ℕ, zero, suc, List, true, ◌&&◌, ◌==◌, ◌≡◌, refl, sym, ap, ◌∙◌, subst, arith, In, any-true,
  any-elim, ==_refl, ==_iff, select, select-all, In-of_select, length,
}
use file_tag_system.Db.{File, FieldValue, FileField, Alias, Db}
use file_tag_system.Db.Cascade.{
  has_storage, has_file, has_type, has_value, parent_is_in, cascade_values, typed_values, cascade,
  IsReferential,
}

pub has_value-In : (v : FieldValue) (vs : List FieldValue) → In v vs → has_value vs v.id ≡ true
has_value-In v vs m = any-true (λ (w : FieldValue). w.id == v.id) v vs m (==_refl v.id)

pub has_value-elim :
    (id : ℕ) (vs : List FieldValue)
    → has_value vs id ≡ true
    → (v : FieldValue) × In v vs × (v.id ≡ id)
has_value-elim id vs h =
    let (v, m, e) = any-elim (λ (w : FieldValue). w.id == id) vs h in (v, m, (==_iff v.id id).0 e)

-- Every value has its parent.
abbrev pub IsSettled : List FieldValue → Type 0
IsSettled vs = (v : FieldValue) → In v vs → parent_is_in vs v.parent_id ≡ true

cascade_values-settled : (n : ℕ) (vs : List FieldValue) → IsSettled vs → cascade_values n vs ≡ vs
unfolding cascade_values
cascade_values-settled zero vs h = refl
cascade_values-settled (suc n) vs h =
    let none_dropped = select-all (λ (v : FieldValue). parent_is_in vs v.parent_id) vs h in
    ap (cascade_values n) none_dropped ∙ cascade_values-settled n vs h

pub field_values-cascade :
    (db : Db) → IsSettled (typed_values db) → (cascade db).field_values ≡ typed_values db
unfolding cascade
field_values-cascade db h = cascade_values-settled (length (typed_values db)) (typed_values db) h

-- The tags of files that are left refer to files, types and values that are left, and all such are
-- left.
pub file_fields-cascade :
    (db : Db)
    → (cascade db).file_fields
      ≡ select
          (λ (r : FileField).
            has_file (cascade db).files r.file_id
            && has_type db.field_types r.field_type_id
            && has_value (cascade db).field_values r.field_value_id)
          db.file_fields
unfolding cascade
file_fields-cascade db = refl

pub aliases-cascade :
    (db : Db)
    → (cascade db).aliases
      ≡ select (λ (a : Alias). has_value (cascade db).field_values a.field_value_id) db.aliases
unfolding cascade
aliases-cascade db = refl

pub files-cascade :
    (db : Db)
    → (cascade db).files
      ≡ select (λ (f : File). has_storage db.storage_providers f.storage_id) db.files
unfolding cascade
files-cascade db = refl

pub field_types-cascade : (db : Db) → (cascade db).field_types ≡ db.field_types
unfolding cascade
field_types-cascade db = refl

pub storage_providers-cascade : (db : Db) → (cascade db).storage_providers ≡ db.storage_providers
unfolding cascade
storage_providers-cascade db = refl

pub permissions-cascade : (db : Db) → (cascade db).permissions ≡ db.permissions
unfolding cascade
permissions-cascade db = refl

-- After a cascade no reference is to a row that is gone.
pub cascade-IsReferential : (db : Db) → IsSettled (typed_values db) → IsReferential (cascade db)
cascade-IsReferential db settled = record {
  file_storage = λ f m.
      rw storage_providers-cascade
        (In-of_select (λ (x : File). has_storage db.storage_providers x.storage_id) f db.files
          (rw files-cascade at m)).1;
  value_type = λ v m.
      rw field_types-cascade
        (In-of_select (λ (x : FieldValue). has_type db.field_types x.field_type_id) v
          db.field_values (rw (field_values-cascade db settled) at m)).1;
  value_parent = λ v m.
      subst (λ vs. parent_is_in vs v.parent_id ≡ true) (sym (field_values-cascade db settled))
        (settled v (rw (field_values-cascade db settled) at m));
  field_file = λ r m. (field_refs r m).0;
  field_type = λ r m. rw field_types-cascade (field_refs r m).1;
  field_value = λ r m. (field_refs r m).2;
  alias_value = λ a m.
      (In-of_select (λ (x : Alias). has_value (cascade db).field_values x.field_value_id) a
        db.aliases (rw aliases-cascade at m)).1;
}
  where
    field_refs :
        (r : FileField)
        → In r (cascade db).file_fields
        → (has_file (cascade db).files r.file_id ≡ true)
          × (has_type db.field_types r.field_type_id ≡ true)
          × (has_value (cascade db).field_values r.field_value_id ≡ true)
    field_refs r m =
        let (k, t) =
          In-of_select
            (λ (x : FileField).
              has_file (cascade db).files x.file_id
              && has_type db.field_types x.field_type_id
              && has_value (cascade db).field_values x.field_value_id)
            r db.file_fields (subst (In r) (file_fields-cascade db) m) in
        (ground arith, ground arith, ground arith)
