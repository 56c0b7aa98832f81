-- ===== src/Tagging/Trees.antt =====
-- What the operations of tags, governance and catalog do to the table of values.
use file_tag_system.Prelude.{
  ℕ, [], ◌∷◌, ◌++◌, Bool, true, ◌≡◌, refl, sym, subst, arith, Option, some, In, select, any,
  any-false, ◌==◌, not, Bool-cases, inl, inr, is_some_of, map,
}
use file_tag_system.Text.{Text}
use file_tag_system.Text.Like.{like_prefix}
use file_tag_system.Result.{
  ok, guard, not_found, self_merge, field_type_mismatch, has_children, found-eq-ok, found,
}
use file_tag_system.Db.{FieldType, FieldValue, FileField, Db}
use file_tag_system.Db.Cascade.{has_storage, has_type, typed_values, cascade}
use file_tag_system.Tags.{
  create_field_value, rename_field_value, move_field_value, value_of, delete_field_value,
  delete_field_type,
}
use file_tag_system.Tags.Tree.{Placed, root, child, IsTree}
use file_tag_system.Tags.Values.{
  value_of-some, create_field_value-IsTree, rename_field_value-IsTree,
}
use file_tag_system.Tags.Move.{move_field_value-IsTree}
use file_tag_system.Tags.Delete.{IsTree-select, rest-IsTree, cascade-IsTree}
use file_tag_system.Catalog.{delete_storage}
use file_tag_system.Tagging.Governance.{repoint, realias, label_alias, merge_field_value}
use file_tag_system.Tagging.Same.{Gives, ok-Gives, step-Gives}

abbrev pub HasTree : Db → Type 0
HasTree db = IsTree db.field_values

pub cascade-HasTree : (db : Db) → HasTree db → HasTree (cascade db)
cascade-HasTree db tree =
    subst IsTree (sym (cascade-IsTree db (typed_values db) refl typed).0) typed
  where
    kept : FieldValue → Bool
    kept w = has_type db.field_types w.field_type_id

    same_type :
        (u w : FieldValue)
        → In u db.field_values
        → In w db.field_values
        → w.parent_id ≡ some u.id
        → Placed db.field_values w
        → kept w ≡ true
        → kept u ≡ true
    same_type u w m k p (root n e) t = absurd (ground arith)
    same_type u w m k p (child x i q f e) t =
        let same : x ≡ u = tree.distinct x u i m (ground arith) in
        subst (λ (y : FieldValue). has_type db.field_types y.field_type_id ≡ true) same (rw f t)

    typed : IsTree (typed_values db)
    typed = IsTree-select db.field_values kept tree same_type

pub delete_storage-HasTree :
    (db : Db) (sid : ℕ) → HasTree db → Gives HasTree (delete_storage db sid)
unfolding delete_storage
delete_storage-HasTree db sid tree =
    step-Gives HasTree (guard (has_storage db.storage_providers sid) not_found) _
      (λ _ _. ok-Gives HasTree _ (cascade-HasTree _ tree))

pub delete_field_type-HasTree :
    (db : Db) (ft : ℕ) → HasTree db → Gives HasTree (delete_field_type db ft)
unfolding delete_field_type
delete_field_type-HasTree db ft tree =
    step-Gives HasTree (guard (has_type db.field_types ft) not_found) _ (λ _ _. ok-Gives HasTree _ (
      cascade-HasTree
        (record db { field_types = select (λ (t : FieldType). not (t.id == ft)) db.field_types })
        tree))

pub delete_field_value-HasTree :
    (db : Db) (id : ℕ) → HasTree db → Gives HasTree (delete_field_value db id)
unfolding delete_field_value
delete_field_value-HasTree db id tree =
    step-Gives HasTree (found not_found (value_of db id)) _ (λ v e. ok-Gives HasTree _ (
      cascade-HasTree
        (record db {
          field_values =
              select (λ (w : FieldValue). not (like_prefix v.path w.path)) db.field_values;
        })
        (rest-IsTree db tree v
          (value_of-some db id v (found-eq-ok not_found (value_of db id) e)).0)))

-- A value without children can go from the tree.
pub merge_field_value-HasTree :
    (db : Db) (id target : ℕ) → HasTree db → Gives HasTree (merge_field_value db id target)
unfolding merge_field_value
merge_field_value-HasTree db id target tree =
    step-Gives HasTree (guard (not (id == target)) self_merge) _ (λ _ _.
      step-Gives HasTree (found not_found (value_of db id)) _ (λ v _.
        step-Gives HasTree (found not_found (value_of db target)) _ (λ w _.
          step-Gives HasTree (guard (v.field_type_id == w.field_type_id) field_type_mismatch) _
            (λ _ _.
              step-Gives HasTree (guard (not (any has_parent db.field_values)) has_children) _
                (λ u e. ok-Gives HasTree _ (
                  cascade-HasTree
                    (record db {
                      file_fields =
                          select (λ (r : FileField). not (r.field_value_id == id))
                            (map (repoint id target db.file_fields) db.file_fields);
                      aliases = map (realias id target) db.aliases ++ label_alias db target v ∷ [];
                      field_values = select kept db.field_values;
                    })
                    (IsTree-select db.field_values kept tree (closed u e))))))))
  where
    has_parent : FieldValue → Bool
    has_parent x = is_some_of x.parent_id id

    kept : FieldValue → Bool
    kept x = not (x.id == id)

    closed :
        (i : Unit {0})
        → guard (not (any has_parent db.field_values)) has_children ≡ ok i
        → (u w : FieldValue) → In u db.field_values
        → In w db.field_values
        → w.parent_id ≡ some u.id
        → Placed db.field_values w
        → kept w ≡ true
        → kept u ≡ true
    closed i e u w m k p q t = elim (Bool-cases (any has_parent db.field_values)) [
      | inl y ↦ cc (rw y at e)
      | inr n ↦ ground (arith, any-false has_parent w db.field_values k n)
    ]

pub create_field_value-HasTree :
    (db : Db) (ft : ℕ) (parent : Option ℕ) (value : Text)
    → HasTree db
    → Gives (λ r. HasTree r.1) (create_field_value db ft parent value)
create_field_value-HasTree db ft parent value tree (v, db') h =
    (create_field_value-IsTree db db' ft parent value v tree h).0

pub rename_field_value-HasTree :
    (db : Db) (id : ℕ) (value : Text) → HasTree db → Gives HasTree (rename_field_value db id value)
rename_field_value-HasTree db id value tree db' h = rename_field_value-IsTree db db' id value tree h

pub move_field_value-HasTree :
    (db : Db) (id : ℕ) (parent : Option ℕ)
    → HasTree db
    → Gives HasTree (move_field_value db id parent)
move_field_value-HasTree db id parent tree db' h =
    (move_field_value-IsTree db db' id parent tree h).0
