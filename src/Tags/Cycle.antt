-- ===== src/Tags/Cycle.antt =====
-- The guard of `MoveFieldValue` in server/internal/tags/tags.go.
use file_tag_system.Prelude.{
  ℕ, List, ◌++◌, true, false, ◌≡◌, ◌↔◌, inl, inr, sym, ap, ◌∙◌, arith, some, In, length,
  length-append, ==_iff, Bool-cases,
}
use file_tag_system.Text.{text_eq, starts_with}
use file_tag_system.Text.Laws.{text_eq_iff}
use file_tag_system.Text.Like.{like_prefix}
use file_tag_system.Result.{err, not_found, cycle, found}
use file_tag_system.Db.{FieldValue, Db}
use file_tag_system.Tags.{segment, value_of, parent_path, move_field_value}
use file_tag_system.Tags.Path.{segment-length, prefix_length}
use file_tag_system.Tags.Tree.{IsTree, like_prefix-path}
use file_tag_system.Tags.Tree.Descent.{Descends, like_prefix-iff_Descends}
use file_tag_system.Tags.Values.{value_of-some}

-- A move below a value of the same field type is refused as a cycle exactly when this value is the
-- moved one or stands below it.
pub move_field_value-cycle :
    (db : Db) (id pid : ℕ) (v p : FieldValue)
    → IsTree db.field_values
    → value_of db id ≡ some v
    → value_of db pid ≡ some p
    → p.field_type_id ≡ v.field_type_id
    → (move_field_value db id (some pid) ≡ err cycle) ↔ Descends db.field_values v p
unfolding move_field_value parent_path
move_field_value-cycle db id pid v p tree hv hp t = (onward, back)
  where
    vs : List FieldValue
    vs = db.field_values

    v_in : In v vs
    v_in = (value_of-some db id v hv).0

    p_in : In p vs
    p_in = (value_of-some db pid p hp).0

    under_v : (like_prefix v.path p.path ≡ true) ↔ Descends vs v p
    under_v = like_prefix-iff_Descends vs tree v p v_in p_in

    like : like_prefix v.path p.path ≡ starts_with v.path p.path
    like = like_prefix-path vs tree v p.path v_in

    onward : move_field_value db id (some pid) ≡ err cycle → Descends vs v p
    onward h = elim (Bool-cases (starts_with v.path p.path)) [
      | inl y ↦ under_v.0 (like ∙ y)
      | inr n ↦ absurd (
          ground (
            arith,
            ap (found not_found) hv,
            ap (found not_found) hp,
            (==_iff p.field_type_id v.field_type_id).1 t,
          ))
    ]

    back : Descends vs v p → move_field_value db id (some pid) ≡ err cycle
    back d =
        let inside : starts_with v.path p.path ≡ true = sym like ∙ under_v.1 d in
        rw (hv, hp, (==_iff p.field_type_id v.field_type_id).1 t, longer inside, inside)
      where
        longer : starts_with v.path p.path ≡ true → text_eq (p.path ++ segment id) v.path ≡ false
        longer inside = elim (Bool-cases (text_eq (p.path ++ segment id) v.path)) [
          | inr n ↦ n
          | inl y ↦ absurd (
              omega (
                arith,
                ap length ((text_eq_iff _ _).0 y),
                length-append p.path (segment id),
                segment-length id,
                prefix_length v.path p.path inside,
              ))
        ]
