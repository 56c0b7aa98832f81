-- ===== src/Tags/Tree/Descent.antt =====
-- Paths and the descent by parent links (server/internal/tags/tags.go).
use mathlib.Core.List.{append-nil}
use file_tag_system.Text.Like.{like_prefix}
use file_tag_system.Prelude.{
  ℕ, zero, suc, ◌≤◌, List, [], ◌∷◌, true, ◌≡◌, ◌↔◌, inl, inr, sym, ap, ◌∙◌, subst, arith, some, In,
  length, length-append,
}
use file_tag_system.Text.{slash, starts_with}
use file_tag_system.Text.Laws.{starts_with-append, starts_with-append_right}
use file_tag_system.Db.{FieldValue}
use file_tag_system.Tags.{segment}
use file_tag_system.Tags.Path.{segment-length, under_segment, Ends-length}
use file_tag_system.Tags.Tree.{
  Placed, root, child, IsTree, path-Ends, path_injective, not-under_root, like_prefix-path,
}

-- `v` is `w` or stands below it by the parent links.
pub data Descends (vs : List FieldValue) (w : FieldValue) : FieldValue → Type 0 where
  self : In w vs → Descends vs w w
  below : {u v : FieldValue} → Descends vs w u → In v vs → v.parent_id ≡ some u.id → Descends vs w v

pub Descends-In : {vs : List FieldValue} {w v : FieldValue} → Descends vs w v → In v vs
Descends-In (self m) = m
Descends-In (below d m p) = m

starts_with_refl : (v : FieldValue) → starts_with v.path v.path ≡ true
starts_with_refl v =
    subst (λ t. starts_with v.path t ≡ true) (append-nil v.path) (starts_with-append v.path [])

module _ (vs : List FieldValue) (tree : IsTree vs) where
  prefix_of_parent :
      (w u v : FieldValue)
      → In u vs
      → v.parent_id ≡ some u.id
      → Placed vs v
      → starts_with w.path u.path ≡ true
      → starts_with w.path v.path ≡ true
  prefix_of_parent w u v m p (root n e) h = absurd (ground arith)
  prefix_of_parent w u v m p (child x k q t e) h =
      let same : x ≡ u = tree.distinct x u k m (ground arith) in
      rw e (starts_with-append_right w.path x.path (segment v.id) (rw same h))

  prefix_of_Descends : (w v : FieldValue) → Descends vs w v → starts_with w.path v.path ≡ true
  prefix_of_Descends w v (self m) = starts_with_refl w
  prefix_of_Descends w v (below {u = u} d m p) =
      prefix_of_parent w u v (Descends-In d) p (tree.placed v m) (prefix_of_Descends w u d)

  Descends-of_prefix :
      (n : ℕ) (w v : FieldValue)
      → length v.path ≤ n
      → In w vs
      → In v vs
      → starts_with w.path v.path ≡ true
      → Descends vs w v
  Descends-of_prefix zero w v l m k h =
      absurd (omega (arith, Ends-length v.path (path-Ends vs tree v k)))
  Descends-of_prefix (suc n) w v l m k h = by_place (tree.placed v k) (Descends-of_prefix n w)
    where
      same_path : w.path ≡ v.path → Descends vs w v
      same_path e = subst (Descends vs w) (path_injective vs tree w v m k e) (self m)

      by_place :
          Placed vs v
          → ((u : FieldValue)
              → length u.path ≤ n
              → In w vs
              → In u vs
              → starts_with w.path u.path ≡ true
              → Descends vs w u)
          → Descends vs w v
      by_place (root p e) ih =
          elim (under_segment w.path (slash ∷ []) v.id (path-Ends vs tree w m) (rw e at h)) [
            | inl q ↦ absurd (not-under_root vs tree w m q)
            | inr q ↦ same_path (q ∙ sym e)
          ]
      by_place (child u i p t e) ih =
          elim (under_segment w.path u.path v.id (path-Ends vs tree w m) (rw e at h)) [
            | inl q ↦
                below
                  (ih u
                    (omega (
                      arith,
                      ap length e,
                      length-append u.path (segment v.id),
                      segment-length v.id,
                    ))
                    m i q)
                  k p
            | inr q ↦ same_path (q ∙ sym e)
          ]

  -- The prefix test on paths picks out the subtree: `path LIKE w.path || '%'` holds of a value
  -- exactly when the value is `w` or stands below it by the parent links.
  pub like_prefix-iff_Descends :
      (w v : FieldValue) → In w vs → In v vs → (like_prefix w.path v.path ≡ true) ↔ Descends vs w v
  like_prefix-iff_Descends w v m k = (
    λ h.
        Descends-of_prefix (length v.path) w v (omega arith) m k
          (sym (like_prefix-path vs tree w v.path m) ∙ h),
    λ d. like_prefix-path vs tree w v.path m ∙ prefix_of_Descends w v d,
  )
