-- ===== src/Tags/Move.antt =====
-- `MoveFieldValue` of server/internal/tags/tags.go and the tree.
use mathlib.Core.List.{append-nil}
use file_tag_system.Prelude.{
  ℕ, List, [], ◌∷◌, ◌++◌, true, false, ◌≡◌, ◌≢◌, ◌⊎◌, inl, inr, refl, sym, ap, ◌∙◌, subst, arith,
  Option, some, In, In-map, map, not, if◌then◌else◌, Bool-cases,
}
use file_tag_system.Text.{Text, slash, text_eq, starts_with}
use file_tag_system.Text.Laws.{append_cancel_right, starts_with-append, text_eq_iff}
use file_tag_system.Result.{
  ok, not_found, cycle, found, guard, ◌>>◌, >>=-eq-ok, ok_injective, guard-eq-ok, found-eq-ok,
}
use file_tag_system.Db.{FieldValue, Db}
use file_tag_system.Tags.{segment, value_of, parent_path, repath, reparent, move_field_value}
use file_tag_system.Tags.Tree.{Placed, root, child, IsTree, path_injective, not-under_root}
use file_tag_system.Tags.Values.{ParentIs, top, under, parent_path-ParentIs, value_of-some}
use file_tag_system.Tags.Subtree.{
  moved, id-moved, parent-moved_self, parent-moved_other, moved-IsTree,
}

-- The row of a moved value, and the rows of the others, after the two `UPDATE`s.
abbrev pub Moved : Db → Db → ℕ → Option ℕ → Type 0
Moved db db' id parent =
    ((w : FieldValue) × In w db'.field_values × (w.id ≡ id) × (w.parent_id ≡ parent))
    × ((w : FieldValue)
        → In w db.field_values
        → w.id ≢ id
        → (x : FieldValue) × In x db'.field_values × (x.id ≡ w.id) × (x.parent_id ≡ w.parent_id))

-- A value whose path is already that below the new parent has this parent.
parent_of_path :
    (db : Db)
    → IsTree db.field_values
    → (v : FieldValue) → In v db.field_values
    → (parent : Option ℕ) (above : Text) → ParentIs db v.field_type_id parent above
    → above ++ segment v.id ≡ v.path
    → v.parent_id ≡ parent
parent_of_path db tree v m parent above where_to e = by_place (tree.placed v m) where_to
  where
    vs : List FieldValue
    vs = db.field_values

    bases : (b : Text) → v.path ≡ b ++ segment v.id → above ≡ b
    bases b g = append_cancel_right above b (segment v.id) (e ∙ g)

    by_place : Placed vs v → ParentIs db v.field_type_id parent above → v.parent_id ≡ parent
    by_place (root n g) (top p a) = n ∙ sym p
    by_place (root n g) (under p k i t a) = absurd (
        not-under_root vs tree p k (
          subst (λ s. starts_with p.path s ≡ true)
            (append-nil p.path ∙ sym a ∙ bases (slash ∷ []) g) (starts_with-append p.path [])))
    by_place (child w k i t g) (top p a) = absurd (
        not-under_root vs tree w k (
          subst (λ s. starts_with w.path s ≡ true) (append-nil w.path ∙ sym (bases w.path g) ∙ a)
            (starts_with-append w.path [])))
    by_place (child w k i t g) (under p l j u a) =
        i
        ∙ ap (λ (x : FieldValue). some x.id)
            (path_injective vs tree w p k l (sym (bases w.path g) ∙ a))
        ∙ sym j

-- The guards of `MoveFieldValue` behind the two reads.
move-steps :
    (db db' : Db) (id : ℕ) (parent : Option ℕ)
    → move_field_value db id parent ≡ ok db'
    → (v : FieldValue) × (above : Text) × (value_of db id ≡ some v)
      × (parent_path db v.field_type_id parent ≡ ok above)
      × (((above ++ segment id ≡ v.path) × (db ≡ db'))
          ⊎ ((starts_with v.path above ≡ false)
              × (record db {
                field_values =
                    map
                      (λ w. reparent id parent (repath v.path (above ++ segment id) w))
                      db.field_values;
              }
                  ≡ db')))
unfolding move_field_value
move-steps db db' id parent h =
    let (v, f, k) = >>=-eq-ok (found not_found (value_of db id)) _ h in
    let (above, p, l) = >>=-eq-ok (parent_path db v.field_type_id parent) _ k in
    (v, above, found-eq-ok not_found _ f, p, last v above l)
  where
    last :
        (v : FieldValue) (above : Text)
        → (if text_eq (above ++ segment id) v.path
            then ok db
            else (guard (not (starts_with v.path above)) cycle
                >> ok (record db {
                  field_values =
                      map
                        (λ w. reparent id parent (repath v.path (above ++ segment id) w))
                        db.field_values;
                })))
          ≡ ok db'
        → ((above ++ segment id ≡ v.path) × (db ≡ db'))
          ⊎ ((starts_with v.path above ≡ false)
              × (record db {
                field_values =
                    map
                      (λ w. reparent id parent (repath v.path (above ++ segment id) w))
                      db.field_values;
              }
                  ≡ db'))
    last v above l = elim (Bool-cases (text_eq (above ++ segment id) v.path)) [
      | inl y ↦ inl ((text_eq_iff _ _).0 y, ok_injective (rw y at l))
      | inr n ↦
          let (g, r) = guard-eq-ok (not (starts_with v.path above)) cycle _ (rw n at l) in
          inr (ground arith, ok_injective r)
    ]

moved-Moved :
    (db db' : Db) (tree : IsTree db.field_values) (v : FieldValue) (m : In v db.field_values)
    (parent : Option ℕ) (above : Text) (w : ParentIs db v.field_type_id parent above)
    (nc : starts_with v.path above ≡ false)
    → record db { field_values = map (moved db tree v m parent above w nc) db.field_values } ≡ db'
    → IsTree db'.field_values × Moved db db' v.id parent
moved-Moved db db' tree v m parent above w nc e = rw (← e) (
  moved-IsTree db tree v m parent above w nc,
  (
    (
      f v,
      In-map f v db.field_values m,
      id-moved db tree v m parent above w nc v,
      parent-moved_self db tree v m parent above w nc,
    ),
    λ x k n. (
      f x,
      In-map f x db.field_values k,
      id-moved db tree v m parent above w nc x,
      parent-moved_other db tree v m parent above w nc x n,
    ),
  ),
)
  where
    f : FieldValue → FieldValue
    f = moved db tree v m parent above w nc

-- `MoveFieldValue` that succeeds keeps the tree, puts the value under the new parent, and leaves
-- the parent of every other value as it was.
pub move_field_value-IsTree :
    (db db' : Db) (id : ℕ) (parent : Option ℕ)
    → IsTree db.field_values
    → move_field_value db id parent ≡ ok db'
    → IsTree db'.field_values × Moved db db' id parent
move_field_value-IsTree db db' id parent tree h =
    let (v, above, f, p, last) = move-steps db db' id parent h in
    let (m, same) = value_of-some db id v f in
    let to = parent_path-ParentIs db v.field_type_id parent above p in
    elim last [
      | inl (e, d) ↦ rw (← d) (
        tree,
        (
          (
            v,
            m,
            same,
            parent_of_path db tree v m parent above to (ap (λ i. above ++ segment i) same ∙ e),
          ),
          λ x k _. (x, k, refl, refl),
        ),
      )
      | inr (nc, d) ↦
          subst (λ i. IsTree db'.field_values × Moved db db' i parent) same
            (moved-Moved db db' tree v m parent above to nc (
              ap
                (λ i. record db {
                  field_values =
                      map (λ w. reparent i parent (repath v.path (above ++ segment i) w))
                        db.field_values;
                })
                same
              ∙ d))
    ]
