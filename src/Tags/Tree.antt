-- ===== src/Tags/Tree.antt =====
-- The invariant of the `field_values` table: the paths spell the tree of the parent links.
pub mod Descent
use file_tag_system.Prelude.{
  ℕ, zero, suc, ◌+◌, ◌≤◌, ◌<◌, List, [], ◌∷◌, ◌++◌, Bool, true, false, ◌≡◌, ◌⊎◌, inl, inr, refl,
  sym, ap, ◌∙◌, subst, arith, Option, none, some, In, length, length-append, find, find-some, ◌==◌,
  ==_iff,
}
use file_tag_system.Text.{Text, slash, starts_with}
use file_tag_system.Text.Laws.{starts_with-append}
use file_tag_system.Text.Like.{like_prefix}
use file_tag_system.Db.{FieldValue}
use file_tag_system.Tags.{segment}
use file_tag_system.Tags.Path.{
  Ends, Ends-append, Ends-length, prefix_length, Ends-segment, PathText, PathText-append,
  PathText-segment, segment-length, like_prefix-PathText, last_segment, under_segment,
}

-- A value stands below the root, or below its parent, which is of the same field type.
pub data Placed (vs : List FieldValue) (v : FieldValue) : Type 0 where
  root : v.parent_id ≡ none → v.path ≡ slash ∷ segment v.id → Placed vs v
  child :
      (w : FieldValue)
      → In w vs
      → v.parent_id ≡ some w.id
      → w.field_type_id ≡ v.field_type_id
      → v.path ≡ w.path ++ segment v.id
      → Placed vs v

pub record IsTree (vs : List FieldValue) : Type 0 where
  pub placed : (v : FieldValue) → In v vs → Placed vs v
  pub distinct : (v w : FieldValue) → In v vs → In w vs → v.id ≡ w.id → v ≡ w

-- The path in front of a value's own segment.
pub above :
    (vs : List FieldValue) (v : FieldValue)
    → Placed vs v
    → (b : Text) × (v.path ≡ b ++ segment v.id)
above vs v (root n e) = (slash ∷ [], e)
above vs v (child w m n t e) = (w.path, e)

module _ (vs : List FieldValue) (tree : IsTree vs) where
  pub path-Ends : (v : FieldValue) → In v vs → Ends v.path
  path-Ends v m =
      let (b, e) = above vs v (tree.placed v m) in
      rw e (Ends-append b (segment v.id) (Ends-segment v.id))

  path-PathText_below : (n : ℕ) (v : FieldValue) → length v.path ≤ n → In v vs → PathText v.path
  path-PathText_below zero v l m =
      let (b, e) = above vs v (tree.placed v m) in
      absurd (omega (arith, ap length e, length-append b (segment v.id), segment-length v.id))
  path-PathText_below (suc n) v l m = by_place (tree.placed v m) (path-PathText_below n)
    where
      by_place :
          Placed vs v
          → ((w : FieldValue) → length w.path ≤ n → In w vs → PathText w.path)
          → PathText v.path
      by_place (root p e) ih = rw e (omega arith, omega arith, PathText-segment v.id)
      by_place (child w k p t e) ih = rw e (
          PathText-append w.path (segment v.id)
            (ih w
              (omega (arith, ap length e, length-append w.path (segment v.id), segment-length v.id))
              k)
            (PathText-segment v.id))

  pub path-PathText : (v : FieldValue) → In v vs → PathText v.path
  path-PathText v m = path-PathText_below (length v.path) v (omega arith) m

  -- In a tree the test `path LIKE ? || '%'` is a test for a prefix.
  pub like_prefix-path :
      (w : FieldValue) (s : Text) → In w vs → like_prefix w.path s ≡ starts_with w.path s
  like_prefix-path w s m = like_prefix-PathText w.path s (path-PathText w m)

  path_base : (v : FieldValue) → In v vs → (b : Text) × Ends b × (v.path ≡ b ++ segment v.id)
  path_base v m = by_place (tree.placed v m)
    where
      by_place : Placed vs v → (b : Text) × Ends b × (v.path ≡ b ++ segment v.id)
      by_place (root n e) = (slash ∷ [], refl, e)
      by_place (child w k n t e) = (w.path, path-Ends w k, e)

  -- No two values have one path.
  pub path_injective : (v w : FieldValue) → In v vs → In w vs → v.path ≡ w.path → v ≡ w
  path_injective v w m k e =
      let (b, eb, p) = path_base v m in
      let (c, ec, q) = path_base w k in
      tree.distinct v w m k (last_segment b c v.id w.id eb ec (sym p ∙ e ∙ q))

  pub not-under_root : (w : FieldValue) → In w vs → ¬ (starts_with w.path (slash ∷ []) ≡ true)
  not-under_root w m h =
      let (b, eb, e) = path_base w m in
      absurd (
        omega (
          arith,
          prefix_length w.path (slash ∷ []) h,
          ap length e,
          length-append b (segment w.id),
          segment-length w.id,
          Ends-length b eb,
        ))
