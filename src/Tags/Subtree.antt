-- ===== src/Tags/Subtree.antt =====
-- What the two `UPDATE` statements of a move do to the rows of a tree.
use mathlib.Core.List.{append-nil, append_assoc}
use file_tag_system.Prelude.{
  ℕ, List, [], ◌∷◌, ◌++◌, true, false, ◌≡◌, ◌≢◌, ◌⊎◌, inl, inr, sym, ap, ◌∙◌, subst, arith, Option,
  some, In, In-map, In-of_map, map, drop, ◌==◌, ==_iff, Bool-cases,
}
use file_tag_system.Text.{Text, slash, len, starts_with}
use file_tag_system.Text.Laws.{starts_with-append, starts_with-elim}
use file_tag_system.Text.Like.{like_prefix}
use file_tag_system.Db.{FieldValue, Db}
use file_tag_system.Tags.{segment, repath, reparent}
use file_tag_system.Tags.Path.{drop-len, under_segment}
use file_tag_system.Tags.Tree.{
  Placed, root, child, IsTree, path-Ends, path-PathText, path_injective, not-under_root,
  like_prefix-path,
}
use file_tag_system.Tags.Values.{ParentIs, top, under}

module _ (db : Db) (tree : IsTree db.field_values) (v : FieldValue) (v_in : In v db.field_values)
    (parent : Option ℕ) (above : Text) (where_to : ParentIs db v.field_type_id parent above)
    (no_cycle : starts_with v.path above ≡ false) where
  abbrev pub vs : List FieldValue
  vs = db.field_values

  abbrev new_path : Text
  new_path = above ++ segment v.id

  -- What the two `UPDATE`s make of a row.
  abbrev pub moved : FieldValue → FieldValue
  moved w = reparent v.id parent (repath v.path new_path w)

  pub id-moved : (w : FieldValue) → (moved w).id ≡ w.id
  unfolding reparent repath
  id-moved w = ground arith

  pub type-moved : (w : FieldValue) → (moved w).field_type_id ≡ w.field_type_id
  unfolding reparent repath
  type-moved w = ground arith

  pub parent-moved_other : (w : FieldValue) → w.id ≢ v.id → (moved w).parent_id ≡ w.parent_id
  unfolding reparent repath
  parent-moved_other w n = ground arith

  pub parent-moved_self : (moved v).parent_id ≡ parent
  unfolding reparent repath
  parent-moved_self = ground arith

  pub path-moved_outside :
      (w : FieldValue) → starts_with v.path w.path ≡ false → (moved w).path ≡ w.path
  unfolding reparent repath
  path-moved_outside w h = ground (arith, like_prefix-path vs tree v w.path v_in)

  pub path-moved_inside :
      (w : FieldValue) (r : Text) → w.path ≡ v.path ++ r → (moved w).path ≡ new_path ++ r
  unfolding reparent repath
  path-moved_inside w r e =
      let like : like_prefix v.path w.path ≡ true =
        like_prefix-path vs tree v w.path v_in ∙ (rw e (starts_with-append v.path r)) in
      let cut : drop (len v.path) w.path ≡ r =
        ap (drop (len v.path)) e ∙ drop-len v.path r (path-PathText vs tree v v_in) in
      ground (arith, like, ap (λ t. new_path ++ t) cut)

  pub ne_of_id : (w : FieldValue) → In w vs → (w.id ≡ v.id → ⊥) → v.path ≢ w.path
  ne_of_id w m n e = n (ap (λ (x : FieldValue). x.id) (sym (path_injective vs tree v w v_in m e)))

  -- Outside the subtree a child of an unmoved value stays in its place.
  pub moved-Placed_other :
      (w : FieldValue) → In w vs → (w.id ≡ v.id → ⊥) → Placed vs w → Placed (map moved vs) (moved w)
  moved-Placed_other w m n (root p e) =
      root (parent-moved_other w n ∙ p)
        (path-moved_outside w out ∙ e ∙ ap (λ i. slash ∷ segment i) (sym (id-moved w)))
    where
      out : starts_with v.path w.path ≡ false
      out = elim (Bool-cases (starts_with v.path w.path)) [
        | inr f ↦ f
        | inl t ↦
            elim (under_segment v.path (slash ∷ []) w.id (path-Ends vs tree v v_in) (rw e at t)) [
              | inl q ↦ absurd (not-under_root vs tree v v_in q)
              | inr q ↦ absurd (ne_of_id w m n (q ∙ sym e))
            ]
      ]
  moved-Placed_other w m n (child u k p t e) =
      child (moved u) (In-map moved u vs k)
        (parent-moved_other w n ∙ p ∙ ap some (sym (id-moved u)))
        (type-moved u ∙ t ∙ sym (type-moved w))
        (paths (Bool-cases (starts_with v.path u.path))
          ∙ ap (λ i. (moved u).path ++ segment i) (sym (id-moved w)))
    where
      paths :
          ((starts_with v.path u.path ≡ true) ⊎ (starts_with v.path u.path ≡ false))
          → (moved w).path ≡ (moved u).path ++ segment w.id
      paths (inl inside) =
          let (r, g) = starts_with-elim v.path u.path inside in
          path-moved_inside w (r ++ segment w.id)
            (e ∙ ap (λ s. s ++ segment w.id) g ∙ append_assoc v.path r (segment w.id))
          ∙ sym (append_assoc new_path r (segment w.id))
          ∙ ap (λ s. s ++ segment w.id) (sym (path-moved_inside u r g))
      paths (inr outside) =
          let out : starts_with v.path w.path ≡ false =
            (elim (Bool-cases (starts_with v.path w.path)) [
              | inr f ↦ f
              | inl h ↦
                  elim (under_segment v.path u.path w.id (path-Ends vs tree v v_in) (rw e at h)) [
                    | inl q ↦ cc
                    | inr q ↦ absurd (ne_of_id w m n (q ∙ sym e))
                  ]
            ]) in
          path-moved_outside w out
          ∙ e
          ∙ ap (λ s. s ++ segment w.id) (sym (path-moved_outside u outside))

  -- The moved value stands below its new parent.
  pub moved-Placed_self : ParentIs db v.field_type_id parent above → Placed (map moved vs) (moved v)
  moved-Placed_self (top n e) =
      root (parent-moved_self ∙ n) (self_path ∙ ap (λ s. s ++ segment (moved v).id) e)
    where
      self_path : (moved v).path ≡ above ++ segment (moved v).id
      self_path =
          path-moved_inside v [] (sym (append-nil v.path))
          ∙ append-nil new_path
          ∙ ap (λ i. above ++ segment i) (sym (id-moved v))
  moved-Placed_self (under p m i t e) =
      child (moved p) (In-map moved p vs m) (parent-moved_self ∙ i ∙ ap some (sym (id-moved p)))
        (type-moved p ∙ t ∙ sym (type-moved v))
        (self_path
          ∙ ap (λ s. s ++ segment (moved v).id) (e ∙ sym (path-moved_outside p (rw e at no_cycle))))
    where
      self_path : (moved v).path ≡ above ++ segment (moved v).id
      self_path =
          path-moved_inside v [] (sym (append-nil v.path))
          ∙ append-nil new_path
          ∙ ap (λ i. above ++ segment i) (sym (id-moved v))

  pub moved-IsTree : IsTree (map moved vs)
  moved-IsTree = record { placed = placed; distinct = distinct }
    where
      place : (a : FieldValue) → In a vs → Placed (map moved vs) (moved a)
      place a k = elim (Bool-cases (a.id == v.id)) [
        | inl y ↦
            let same = tree.distinct v a v_in k (sym ((==_iff a.id v.id).0 y)) in
            subst (λ x. Placed (map moved vs) (moved x)) same (moved-Placed_self where_to)
        | inr n ↦ moved-Placed_other a k (λ e. cc (n, (==_iff a.id v.id).1 e)) (tree.placed a k)
      ]

      placed : (w : FieldValue) → In w (map moved vs) → Placed (map moved vs) w
      placed w m =
          let (a, k, e) = In-of_map moved w vs m in
          subst (Placed (map moved vs)) (sym e) (place a k)

      distinct :
          (x y : FieldValue) → In x (map moved vs) → In y (map moved vs) → x.id ≡ y.id → x ≡ y
      distinct x y m k same =
          let (a, i, e) = In-of_map moved x vs m in
          let (b, j, g) = In-of_map moved y vs k in
          let ids : a.id ≡ b.id = cc (id-moved a, id-moved b) in
          e ∙ ap moved (tree.distinct a b i j ids) ∙ sym g
