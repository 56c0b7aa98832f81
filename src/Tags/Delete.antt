-- ===== src/Tags/Delete.antt =====
-- `DeleteFieldValue` and `DeleteFieldType`: what goes and what stays.
use file_tag_system.Prelude.{
  ℕ, List, [], ◌∷◌, Bool, true, false, ◌&&◌, ◌≡◌, ◌↔◌, ◌≢◌, inl, inr, refl, sym, ap, ◌∙◌, subst,
  arith, some, In, select, select-all, In-select, In-of_select, ◌==◌, not, Bool-cases,
}
use file_tag_system.Text.{starts_with}
use file_tag_system.Text.Laws.{starts_with-append_right}
use file_tag_system.Text.Like.{like_prefix}
use file_tag_system.Result.{ok, not_found, ok_injective, guard-eq-ok}
use file_tag_system.Db.{FieldType, FieldValue, Db}
use file_tag_system.Db.Cascade.{has_type, parent_is_in, typed_values, cascade, IsReferential}
use file_tag_system.Db.Cascade.Laws.{
  has_value-In, IsSettled, field_values-cascade, cascade-IsReferential,
}
use file_tag_system.Tags.{segment, value_of, delete_field_value, delete_field_type}
use file_tag_system.Tags.Tree.{Placed, root, child, IsTree, like_prefix-path}
use file_tag_system.Tags.Tree.Descent.{Descends, like_prefix-iff_Descends}
use file_tag_system.Tags.Values.{value_of-some}

-- A part of a tree that holds the parents of its values is a tree.
pub IsTree-select :
    (vs : List FieldValue) (p : FieldValue → Bool)
    → IsTree vs
    → ((u w : FieldValue)
        → In u vs
        → In w vs
        → w.parent_id ≡ some u.id
        → Placed vs w
        → p w ≡ true
        → p u ≡ true)
    → IsTree (select p vs)
IsTree-select vs p tree closed = record { placed = placed; distinct = distinct }
  where
    place : (w : FieldValue) → In w vs → p w ≡ true → Placed vs w → Placed (select p vs) w
    place w m t (root n e) = root n e
    place w m t (child u k i f e) =
        child u (In-select p u vs k (closed u w k m i (child u k i f e) t)) i f e

    placed : (w : FieldValue) → In w (select p vs) → Placed (select p vs) w
    placed w m = let (k, t) = In-of_select p w vs m in place w k t (tree.placed w k)

    distinct : (v w : FieldValue) → In v (select p vs) → In w (select p vs) → v.id ≡ w.id → v ≡ w
    distinct v w m k e = tree.distinct v w (In-of_select p v vs m).0 (In-of_select p w vs k).0 e

IsSettled-of_IsTree : (vs : List FieldValue) → IsTree vs → IsSettled vs
IsSettled-of_IsTree vs tree v m = by_place (tree.placed v m)
  where
    by_place : Placed vs v → parent_is_in vs v.parent_id ≡ true
    by_place (root n e) = rw n refl
    by_place (child w k p t e) = rw p (has_value-In w vs k)

pub cascade-IsTree :
    (db : Db) (rest : List FieldValue)
    → typed_values db ≡ rest
    → IsTree rest
    → ((cascade db).field_values ≡ rest) × IsReferential (cascade db)
cascade-IsTree db rest e tree =
    let settled = subst IsSettled (sym e) (IsSettled-of_IsTree rest tree) in
    (field_values-cascade db settled ∙ e, cascade-IsReferential db settled)

module _ (db : Db) (tree : IsTree db.field_values) (v : FieldValue)
    (v_in : In v db.field_values) where
  abbrev vs : List FieldValue
  vs = db.field_values

  abbrev outside : FieldValue → Bool
  outside w = not (like_prefix v.path w.path)

  parent_outside :
      (u w : FieldValue)
      → In u vs
      → In w vs
      → w.parent_id ≡ some u.id
      → Placed vs w
      → outside w ≡ true
      → outside u ≡ true
  parent_outside u w m k p (root n e) t = absurd (ground arith)
  parent_outside u w m k p (child x i q f e) t =
      let same : x ≡ u = tree.distinct x u i m (ground arith) in
      elim (Bool-cases (like_prefix v.path u.path)) [
        | inr n ↦ rw n
        | inl y ↦
            let below : starts_with v.path w.path ≡ true = rw e (
              starts_with-append_right v.path x.path (segment w.id)
                (rw same (sym (like_prefix-path vs tree v u.path v_in) ∙ y))) in
            absurd (ground (arith, like_prefix-path vs tree v w.path v_in))
      ]

  pub rest-IsTree : IsTree (select outside vs)
  rest-IsTree = IsTree-select vs outside tree parent_outside

  -- What stays, in terms of the parent links.
  rest_iff : (w : FieldValue) → In w (select outside vs) ↔ (In w vs × ¬ Descends vs v w)
  rest_iff w = (
    (λ m.
        let (k, t) = In-of_select outside w vs m in
        (k, λ d. cc (t, ap not ((like_prefix-iff_Descends vs tree v w v_in k).1 d)))),
    λ (k, n). In-select outside w vs k (elim (Bool-cases (like_prefix v.path w.path)) [
      | inr f ↦ rw f
      | inl y ↦ absurd (n ((like_prefix-iff_Descends vs tree v w v_in k).0 y))
    ]),
  )

-- `DeleteFieldValue` removes exactly the value and what stands below it by the parent links. The
-- table stays a tree, and no tag and no alias refers to a value that is gone.
pub delete_field_value-subtree :
    (db db' : Db) (id : ℕ) (v : FieldValue)
    → IsTree db.field_values
    → IsReferential db
    → value_of db id ≡ some v
    → delete_field_value db id ≡ ok db'
    → IsTree db'.field_values
      × IsReferential db'
      × ((w : FieldValue)
          → In w db'.field_values ↔ (In w db.field_values × ¬ Descends db.field_values v w))
unfolding delete_field_value
delete_field_value-subtree db db' id v tree refs hv h =
    let m = (value_of-some db id v hv).0 in
    let done : ok
          (cascade (record db { field_values = select (outside db tree v m) db.field_values }))
        ≡ ok db' =
      rw hv at h in
    finish m (ok_injective done)
  where
    finish :
        (m : In v db.field_values)
        → cascade (record db { field_values = select (outside db tree v m) db.field_values }) ≡ db'
        → IsTree db'.field_values
          × IsReferential db'
          × ((w : FieldValue)
              → In w db'.field_values ↔ (In w db.field_values × ¬ Descends db.field_values v w))
    finish m e =
        let rest = rest-IsTree db tree v m in
        let (vals, ref) =
          cascade-IsTree (record db { field_values = select (outside db tree v m) db.field_values })
            (select (outside db tree v m) db.field_values) (typed m) rest in
        rw (← e) (
          subst IsTree (sym vals) rest,
          ref,
          λ w.
              subst (λ ws. In w ws ↔ (In w db.field_values × ¬ Descends db.field_values v w))
                (sym vals) (rest_iff db tree v m w),
        )
      where
        typed :
            (m : In v db.field_values)
            → typed_values
                (record db { field_values = select (outside db tree v m) db.field_values })
              ≡ select (outside db tree v m) db.field_values
        typed m =
            select-all (λ (w : FieldValue). has_type db.field_types w.field_type_id)
              (select (outside db tree v m) db.field_values)
              (λ w k. refs.value_type w (In-of_select (outside db tree v m) w db.field_values k).0)

has_type-rest :
    (types : List FieldType) (id ft : ℕ)
    → has_type (select (λ (t : FieldType). not (t.id == id)) types) ft
      ≡ (has_type types ft && not (ft == id))
has_type-rest [] id ft = refl
has_type-rest (t ∷ types) id ft = ground (arith, has_type-rest types id ft)

rest_types :
    (types : List FieldType) (id : ℕ) (t : FieldType)
    → In t (select (λ (x : FieldType). not (x.id == id)) types) ↔ (In t types × (t.id ≢ id))
rest_types types id t = (
  (λ m. let (k, e) = In-of_select other t types m in (k, ground arith)),
  λ (k, n). In-select other t types k (ground arith),
)
  where
    other : FieldType → Bool
    other x = not (x.id == id)

-- `DeleteFieldType` of a type that is there leaves no type of this number, keeps exactly the other
-- types, and keeps exactly the values of other types. The table of values stays a tree, and no tag
-- and no alias refers to a value or a type that is gone.
pub delete_field_type-values :
    (db db' : Db) (id : ℕ)
    → IsTree db.field_values
    → IsReferential db
    → delete_field_type db id ≡ ok db'
    → (has_type db.field_types id ≡ true)
      × (has_type db'.field_types id ≡ false)
      × ((t : FieldType) → In t db'.field_types ↔ (In t db.field_types × (t.id ≢ id)))
      × IsTree db'.field_values
      × IsReferential db'
      × ((w : FieldValue) → In w db'.field_values ↔ (In w db.field_values × (w.field_type_id ≢ id)))
unfolding delete_field_type
delete_field_type-values db db' id tree refs h =
    let (there, done) = guard-eq-ok (has_type db.field_types id) not_found _ h in
    let (vals, ref) = cascade-IsTree rest (typed_values rest) refl tree' in
    rw (← ok_injective done) (
      there,
      unfold cascade in ground (arith, has_type-rest db.field_types id id),
      unfold cascade in λ t. rest_types db.field_types id t,
      subst IsTree (sym vals) tree',
      ref,
      λ w.
          subst (λ ws. In w ws ↔ (In w db.field_values × (w.field_type_id ≢ id))) (sym vals)
            (member w),
    )
  where
    types : List FieldType
    types = select (λ (t : FieldType). not (t.id == id)) db.field_types

    rest : Db
    rest = record db { field_types = types }

    kept : FieldValue → Bool
    kept w = has_type types w.field_type_id

    tree' : IsTree (typed_values rest)
    tree' = IsTree-select db.field_values kept tree same_type
      where
        same_type :
            (u w : FieldValue)
            → In u db.field_values
            → In w db.field_values
            → w.parent_id ≡ some u.id
            → Placed db.field_values w
            → kept w ≡ true
            → kept u ≡ true
        same_type u w m k p (root n e) t = absurd (ground arith)
        same_type u w m k p (child x i q f e) t =
            let same : x ≡ u = tree.distinct x u i m (ground arith) in
            subst (λ (y : FieldValue). has_type types y.field_type_id ≡ true) same (rw f t)

    member :
        (w : FieldValue)
        → In w (typed_values rest) ↔ (In w db.field_values × (w.field_type_id ≢ id))
    member w = (
      (λ m.
          let (k, t) = In-of_select kept w db.field_values m in
          (k, ground (arith, has_type-rest db.field_types id w.field_type_id))),
      λ (k, n).
          In-select kept w db.field_values k
            (ground (arith, has_type-rest db.field_types id w.field_type_id, refs.value_type w k)),
    )
