-- ===== src/Tags/Values.antt =====
-- `CreateFieldValue` and `RenameFieldValue` of server/internal/tags/tags.go and the tree.
use file_tag_system.Prelude.{
  ℕ, ◌<◌, List, [], ◌∷◌, ◌++◌, ◌≡◌, inl, inr, refl, sym, ap, ◌∙◌, subst, arith, Option, none, some,
  In, In-append_left, In-append_right, In-append_cases, In-map, In-of_map, map, find-some, ◌==◌,
}
use file_tag_system.Text.{Text, slash}
use file_tag_system.Result.{
  ok, not_found, field_type_mismatch, constraint, found, guard, ◌>>=◌, ◌>>◌, >>=-eq-ok,
  ok_injective, guard-eq-ok,
}
use file_tag_system.Db.{FieldValue, Db, next_key}
use file_tag_system.Db.Keys.{lt-next_key}
use file_tag_system.Db.Cascade.{has_type, has_value}
use file_tag_system.Tags.{
  segment, value_of, parent_path, new_value, create_field_value, rename_field_value, relabel,
}
use file_tag_system.Tags.Tree.{Placed, root, child, IsTree}

pub Placed-mono :
    (vs ws : List FieldValue) (v : FieldValue)
    → ((w : FieldValue) → In w vs → In w ws)
    → Placed vs v
    → Placed ws v
Placed-mono vs ws v h (root n e) = root n e
Placed-mono vs ws v h (child w m p t e) = child w (h w m) p t e

-- What `parent_path` reads: the root's path, or that of a value of the field type.
pub data ParentIs (db : Db) (ft : ℕ) (parent : Option ℕ) (above : Text) : Type 0 where
  top : parent ≡ none → above ≡ slash ∷ [] → ParentIs db ft parent above
  under :
      (p : FieldValue)
      → In p db.field_values
      → parent ≡ some p.id
      → p.field_type_id ≡ ft
      → above ≡ p.path
      → ParentIs db ft parent above

pub value_of-some :
    (db : Db) (id : ℕ) (v : FieldValue)
    → value_of db id ≡ some v
    → In v db.field_values × (v.id ≡ id)
value_of-some db id v h =
    let (m, t) = find-some (λ (w : FieldValue). w.id == id) v db.field_values h in (m, ground arith)

pub parent_path-ParentIs :
    (db : Db) (ft : ℕ) (parent : Option ℕ) (above : Text)
    → parent_path db ft parent ≡ ok above
    → ParentIs db ft parent above
unfolding parent_path
parent_path-ParentIs db ft none above h = top refl (ground arith)
parent_path-ParentIs db ft (some pid) above h = by_row (value_of db pid) refl h
  where
    by_row :
        (o : Option FieldValue)
        → value_of db pid ≡ o
        → (found not_found o >>= λ p.
            guard (p.field_type_id == ft) field_type_mismatch >> ok p.path)
          ≡ ok above
        → ParentIs db ft (some pid) above
    by_row none e k = cc
    by_row (some p) e k =
        let (m, i) = value_of-some db pid p e in
        under p m (ap some (sym i)) (ground arith) (ground arith)

-- A new row in its place.
IsTree-add :
    (vs : List FieldValue) (v : FieldValue)
    → IsTree vs
    → Placed vs v
    → ((w : FieldValue) → In w vs → w.id < v.id)
    → IsTree (vs ++ v ∷ [])
IsTree-add vs v tree place fresh = record { placed = placed; distinct = distinct }
  where
    old : (w : FieldValue) → In w vs → In w (vs ++ v ∷ [])
    old w m = In-append_left w vs (v ∷ []) m

    placed : (w : FieldValue) → In w (vs ++ v ∷ []) → Placed (vs ++ v ∷ []) w
    placed w m = elim (In-append_cases w vs (v ∷ []) m) [
      | inl k ↦ Placed-mono vs (vs ++ v ∷ []) w old (tree.placed w k)
      | inr (inl e) ↦
          subst (Placed (vs ++ v ∷ [])) (sym e) (Placed-mono vs (vs ++ v ∷ []) v old place)
      | inr (inr k) ↦ elim k [ ]
    ]

    distinct : (a b : FieldValue) → In a (vs ++ v ∷ []) → In b (vs ++ v ∷ []) → a.id ≡ b.id → a ≡ b
    distinct a b m k e = elim (In-append_cases a vs (v ∷ []) m) [
      | inl i ↦ elim (In-append_cases b vs (v ∷ []) k) [
        | inl j ↦ tree.distinct a b i j e
        | inr (inl q) ↦ absurd (omega (arith, fresh a i, ap (λ (x : FieldValue). x.id) q))
        | inr (inr q) ↦ elim q [ ]
      ]
      | inr (inl p) ↦ elim (In-append_cases b vs (v ∷ []) k) [
        | inl j ↦ absurd (omega (arith, fresh b j, ap (λ (x : FieldValue). x.id) p))
        | inr (inl q) ↦ p ∙ sym q
        | inr (inr q) ↦ elim q [ ]
      ]
      | inr (inr p) ↦ elim p [ ]
    ]

new_value-Placed :
    (db : Db) (ft : ℕ) (parent : Option ℕ) (value above : Text)
    → ParentIs db ft parent above
    → Placed db.field_values (new_value db ft parent value above)
unfolding new_value
new_value-Placed db ft parent value above (top n e) =
    root n (ap (λ t. t ++ segment (next_key (λ (w : FieldValue). w.id) db.field_values)) e)
new_value-Placed db ft parent value above (under p m i same e) =
    child p m i same
      (ap (λ t. t ++ segment (next_key (λ (w : FieldValue). w.id) db.field_values)) e)

new_value-fresh :
    (db : Db) (ft : ℕ) (parent : Option ℕ) (value above : Text) (v : FieldValue)
    → v ≡ new_value db ft parent value above
    → (w : FieldValue) → In w db.field_values
    → w.id < v.id
unfolding new_value
new_value-fresh db ft parent value above v e w m =
    rw e (lt-next_key (λ (x : FieldValue). x.id) w db.field_values m)

new_value-parent :
    (db : Db) (ft : ℕ) (parent : Option ℕ) (value above : Text) (v : FieldValue)
    → v ≡ new_value db ft parent value above
    → v.parent_id ≡ parent
unfolding new_value
new_value-parent db ft parent value above v e = ap (λ (x : FieldValue). x.parent_id) e

-- A change that leaves the columns of the tree alone.
IsTree-map :
    (vs : List FieldValue) (f : FieldValue → FieldValue)
    → ((v : FieldValue)
        → ((f v).id ≡ v.id)
          × ((f v).parent_id ≡ v.parent_id)
          × ((f v).field_type_id ≡ v.field_type_id)
          × ((f v).path ≡ v.path))
    → IsTree vs
    → IsTree (map f vs)
IsTree-map vs f keeps tree = record { placed = placed; distinct = distinct }
  where
    move : (v : FieldValue) → Placed vs v → Placed (map f vs) (f v)
    move v (root n e) =
        root ((keeps v).1 ∙ n) ((keeps v).3 ∙ e ∙ ap (λ i. slash ∷ segment i) (sym (keeps v).0))
    move v (child w m p t e) =
        child (f w) (In-map f w vs m) ((keeps v).1 ∙ p ∙ ap some (sym (keeps w).0))
          ((keeps w).2 ∙ t ∙ sym (keeps v).2) (cc ((keeps v).0, (keeps v).3, (keeps w).3, e))

    placed : (v : FieldValue) → In v (map f vs) → Placed (map f vs) v
    placed v m =
        let (a, k, e) = In-of_map f v vs m in
        subst (Placed (map f vs)) (sym e) (move a (tree.placed a k))

    distinct : (v w : FieldValue) → In v (map f vs) → In w (map f vs) → v.id ≡ w.id → v ≡ w
    distinct v w m k same =
        let (a, i, e) = In-of_map f v vs m in
        let (b, j, g) = In-of_map f w vs k in
        let ids : a.id ≡ b.id = cc ((keeps a).0, (keeps b).0) in
        e ∙ ap f (tree.distinct a b i j ids) ∙ sym g

-- What a successful `CreateFieldValue` did.
create_field_value-inv :
    (db db' : Db) (ft : ℕ) (parent : Option ℕ) (value : Text) (v : FieldValue)
    → create_field_value db ft parent value ≡ ok (v, db')
    → (above : Text) × (parent_path db ft parent ≡ ok above)
      × (v ≡ new_value db ft parent value above)
      × (db' ≡ record db { field_values = db.field_values ++ v ∷ [] })
unfolding create_field_value
create_field_value-inv db db' ft parent value v h =
    let (above, p, k) = >>=-eq-ok (parent_path db ft parent) _ h in
    let (t, done) = guard-eq-ok (has_type db.field_types ft) constraint _ k in
    let e = ok_injective done in
    let v_eq = ap (λ (r : FieldValue × Db). r.0) e in
    (
      above,
      p,
      sym v_eq,
      sym (ap (λ (r : FieldValue × Db). r.1) e)
          ∙ ap (λ x. record db { field_values = db.field_values ++ x ∷ [] }) v_eq,
    )

-- A value that `CreateFieldValue` returns stands in the table at its place in the tree, with a new
-- number, and the table stays a tree.
pub create_field_value-IsTree :
    (db db' : Db) (ft : ℕ) (parent : Option ℕ) (value : Text) (v : FieldValue)
    → IsTree db.field_values
    → create_field_value db ft parent value ≡ ok (v, db')
    → IsTree db'.field_values
      × In v db'.field_values
      × (v.parent_id ≡ parent)
      × ((w : FieldValue) → In w db.field_values → w.id < v.id)
create_field_value-IsTree db db' ft parent value v tree h =
    let (above, p, v_eq, db_eq) = create_field_value-inv db db' ft parent value v h in
    let place =
      subst (Placed db.field_values) (sym v_eq)
        (new_value-Placed db ft parent value above (parent_path-ParentIs db ft parent above p)) in
    let fresh = new_value-fresh db ft parent value above v v_eq in
    rw db_eq (
      IsTree-add db.field_values v tree place fresh,
      In-append_right v db.field_values (v ∷ []) (inl refl),
      new_value-parent db ft parent value above v v_eq,
      fresh,
    )

relabel-keeps :
    (id : ℕ) (value : Text) (v : FieldValue)
    → ((relabel id value v).id ≡ v.id)
      × ((relabel id value v).parent_id ≡ v.parent_id)
      × ((relabel id value v).field_type_id ≡ v.field_type_id)
      × ((relabel id value v).path ≡ v.path)
relabel-keeps id value v = (ground arith, ground arith, ground arith, ground arith)

-- `RenameFieldValue` keeps the tree: no path, parent or field type changes.
pub rename_field_value-IsTree :
    (db db' : Db) (id : ℕ) (value : Text)
    → IsTree db.field_values
    → rename_field_value db id value ≡ ok db'
    → IsTree db'.field_values
unfolding rename_field_value
rename_field_value-IsTree db db' id value tree h =
    let (t, done) = guard-eq-ok (has_value db.field_values id) not_found _ h in
    rw (← ok_injective done)
      (IsTree-map db.field_values (relabel id value) (relabel-keeps id value) tree)
