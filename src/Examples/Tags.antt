-- ===== src/Examples/Tags.antt =====
-- The tree of values, on the example.
use file_tag_system.Prelude.{
  List, [], ◌∷◌, true, false, none, some, In, ◌≡◌, ◌≢◌, ◌↔◌, ◌<◌, inl, inr, refl, sym, subst,
}
use file_tag_system.Text.{codes, len, text_eq, starts_with}
use file_tag_system.Text.Decimal.{format_int}
use file_tag_system.Text.Like.{like, like_prefix}
use file_tag_system.Result.{ok, err, cycle}
use file_tag_system.Db.{Db, FieldType, FieldValue, FileField, next_key}
use file_tag_system.Db.Cascade.{IsReferential, cascade, has_type, has_file, has_value, parent_is_in}
use file_tag_system.Tags.{
  create_field_value, move_field_value, delete_field_value, delete_field_type,
}
use file_tag_system.Tags.Tree.{IsTree}
use file_tag_system.Tags.Tree.Descent.{Descends, like_prefix-iff_Descends}
use file_tag_system.Tags.Values.{create_field_value-IsTree}
use file_tag_system.Tags.Move.{Moved, move_field_value-IsTree}
use file_tag_system.Tags.Cycle.{move_field_value-cycle}
use file_tag_system.Tags.Delete.{delete_field_value-subtree, delete_field_type-values}
use file_tag_system.Examples.{
  person, bare, with_values, planted, asia, taiwan, taipei, empty-IsTree,
}

create_asia : create_field_value bare 1 none (codes "Asia") ≡ ok (asia, with_values (asia ∷ []))
unfolding create_field_value next_key format_int
create_asia = refl

create_field_value-IsTree_example :
    IsTree (asia ∷ [])
    × In asia (asia ∷ [])
    × (asia.parent_id ≡ none)
    × ((w : FieldValue) → In w [] → w.id < 1)
create_field_value-IsTree_example =
    create_field_value-IsTree bare (with_values (asia ∷ [])) 1 none (codes "Asia") asia empty-IsTree
      create_asia

create_taiwan :
    create_field_value (with_values (asia ∷ [])) 1 (some 1) (codes "Taiwan")
    ≡ ok (taiwan, with_values (asia ∷ taiwan ∷ []))
unfolding create_field_value next_key format_int
create_taiwan = refl

create_taipei :
    create_field_value (with_values (asia ∷ taiwan ∷ [])) 1 (some 2) (codes "Taipei")
    ≡ ok (taipei, planted)
unfolding create_field_value next_key format_int
create_taipei = refl

planted-IsTree : IsTree planted.field_values
planted-IsTree =
    let (one, m, p, f) = create_field_value-IsTree_example in
    let (two, n, q, g) =
      create_field_value-IsTree (with_values (asia ∷ [])) (with_values (asia ∷ taiwan ∷ [])) 1
        (some 1) (codes "Taiwan") taiwan one create_taiwan in
    (create_field_value-IsTree (with_values (asia ∷ taiwan ∷ [])) planted 1 (some 2)
      (codes "Taipei") taipei two create_taipei).0

like_prefix-iff_Descends_example :
    (like_prefix asia.path taipei.path ≡ true) ↔ Descends planted.field_values asia taipei
like_prefix-iff_Descends_example =
    like_prefix-iff_Descends planted.field_values planted-IsTree asia taipei (inl refl)
      (inr (inr (inl refl)))

-- The tree with `taiwan` moved to the root.
abbrev replanted : Db
replanted = with_values (
    asia
    ∷ record taiwan { parent_id = none; path = codes "/2/" }
    ∷ record taipei { path = codes "/2/3/" }
    ∷ [])

move_taiwan : move_field_value planted 2 none ≡ ok replanted
unfolding move_field_value like len format_int text_eq starts_with
move_taiwan = refl

move_field_value-IsTree_example : IsTree replanted.field_values × Moved planted replanted 2 none
move_field_value-IsTree_example =
    move_field_value-IsTree planted replanted 2 none planted-IsTree move_taiwan

move_field_value-cycle_example :
    (move_field_value planted 1 (some 3) ≡ err cycle) ↔ Descends planted.field_values asia taipei
move_field_value-cycle_example =
    move_field_value-cycle planted 1 3 asia taipei planted-IsTree refl refl refl

-- With two tags, of which the delete of `taiwan` leaves the first.
abbrev tagged : List FileField → Db
tagged rows = record planted { file_fields = rows }

abbrev on_asia : FileField
on_asia = record { file_id = 1; field_type_id = 1; field_value_id = 1 }

abbrev on_taipei : FileField
on_taipei = record { file_id = 2; field_type_id = 1; field_value_id = 3 }

abbrev busy : Db
busy = tagged (on_asia ∷ on_taipei ∷ [])

busy-IsReferential : IsReferential busy
busy-IsReferential = record {
  file_storage =
      λ f m. elim m [ inl e ↦ rw e | inr n ↦ elim n [ inl e ↦ rw e | inr k ↦ elim k [ ] ] ];
  value_type =
      λ v m. three v m (λ v. has_type busy.field_types v.field_type_id ≡ true) refl refl refl;
  value_parent =
      λ v m. three v m (λ v. parent_is_in busy.field_values v.parent_id ≡ true) refl refl refl;
  field_file = λ r m. two r m (λ r. has_file busy.files r.file_id ≡ true) refl refl;
  field_type = λ r m. two r m (λ r. has_type busy.field_types r.field_type_id ≡ true) refl refl;
  field_value = λ r m. two r m (λ r. has_value busy.field_values r.field_value_id ≡ true) refl refl;
  alias_value = λ a m. elim m [ ];
}
  where
    three :
        (v : FieldValue)
        → In v busy.field_values
        → (P : FieldValue → Type 0) → P asia
        → P taiwan
        → P taipei
        → P v
    three v (inl e) P a b c = subst P (sym e) a
    three v (inr (inl e)) P a b c = subst P (sym e) b
    three v (inr (inr (inl e))) P a b c = subst P (sym e) c
    three v (inr (inr (inr k))) P a b c = elim k [ ]

    two :
        (r : FileField)
        → In r busy.file_fields
        → (P : FileField → Type 0) → P on_asia
        → P on_taipei
        → P r
    two r (inl e) P a b = subst P (sym e) a
    two r (inr (inl e)) P a b = subst P (sym e) b
    two r (inr (inr k)) P a b = elim k [ ]

abbrev pruned : Db
pruned = record bare { field_values = asia ∷ []; file_fields = on_asia ∷ [] }

delete_field_value-subtree_example :
    IsTree pruned.field_values
    × IsReferential pruned
    × ((w : FieldValue)
        → In w pruned.field_values
          ↔ (In w busy.field_values × ¬ Descends busy.field_values taiwan w))
delete_field_value-subtree_example =
    delete_field_value-subtree busy pruned 2 taiwan planted-IsTree busy-IsReferential refl deleted
  where
    deleted : delete_field_value busy 2 ≡ ok pruned
    deleted = unfold delete_field_value like cascade in refl

abbrev untyped : Db
untyped = record bare { field_types = person ∷ [] }

delete_field_type-values_example :
    (has_type busy.field_types 1 ≡ true)
    × (has_type untyped.field_types 1 ≡ false)
    × ((t : FieldType) → In t untyped.field_types ↔ (In t busy.field_types × (t.id ≢ 1)))
    × IsTree untyped.field_values
    × IsReferential untyped
    × ((w : FieldValue)
        → In w untyped.field_values ↔ (In w busy.field_values × (w.field_type_id ≢ 1)))
delete_field_type-values_example =
    delete_field_type-values busy untyped 1 planted-IsTree busy-IsReferential deleted
  where
    deleted : delete_field_type busy 1 ≡ ok untyped
    deleted = unfold delete_field_type cascade in refl
