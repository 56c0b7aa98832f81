-- ===== src/Perm/Walk/Resolution.antt =====
-- `resolveAction` against its declarative meaning.
use file_tag_system.Prelude.{
  ℕ, zero, suc, ◌≤◌, List, [], ◌∷◌, true, false, ◌≡◌, inl, inr, refl, arith, length, In, any,
  any-elim, any-false, Bool-cases, if◌then◌else◌,
}
use file_tag_system.Models.{Action, has}
use file_tag_system.Perm.{
  Row, Decision, allow, deny, more_specific, walk, slice_stable, resolve_action,
}
use file_tag_system.Perm.Order.{
  IsTop, Descending, at_most_trans, same_level-at_most, same_level-of_at_most, more_specific_refl,
  slice_stable-Descending, In-slice_stable, slice_stable-In, length-slice_stable,
}
use file_tag_system.Perm.Walk.{
  Resolves, silent, denied, granted, level, beyond, grants, denies, scan_level_lem, In-level,
  In-beyond, In-cases, beyond-Descending, beyond-below, beyond-shorter,
}

module _ (a : Action) (r : Row) (rows : List Row) (sorted : Descending (r ∷ rows)) where
  abbrev whole : List Row
  whole = r ∷ rows

  top : IsTop r whole
  top s (inl e) = rw e (more_specific_refl r)
  top s (inr m) = sorted.0 s m

  -- A row at the level of the front row is as specific as any row.
  level_top : (x : Row) → In x (level r whole) → (s : Row) → In s whole → more_specific s x ≡ false
  level_top x m s k =
      let (i, l) = In-level r x whole m in
      at_most_trans s r x (top s k) (same_level-at_most r x l).0

  front_denied : any (denies a) (level r whole) ≡ true → Resolves whole a deny
  front_denied h =
      let (x, m, t) = any-elim (denies a) (level r whole) h in
      denied x (In-level r x whole m).0 (ground arith) (ground arith) (λ s k _. level_top x m s k)

  front_granted :
      any (denies a) (level r whole) ≡ false
      → any (grants a) (level r whole) ≡ true
      → Resolves whole a allow
  front_granted nd h =
      let (x, m, t) = any-elim (grants a) (level r whole) h in
      granted x (In-level r x whole m).0 (ground arith) (λ s k _. level_top x m s k)
        (λ s k mention l. elim (In-cases r s whole k) [
          | inl f ↦ ground (arith, any-false (denies a) s (level r whole) f nd)
          | inr b ↦
              let over : more_specific x s ≡ false = (same_level-at_most x s l).0 in
              let under = beyond-below r s whole sorted top b in
              let up = (same_level-at_most r x (In-level r x whole m).1).0 in
              cc (under, at_most_trans r x s up over)
        ])

  level_silent :
      any (denies a) (level r whole) ≡ false
      → any (grants a) (level r whole) ≡ false
      → (s : Row) → In s (level r whole)
      → has s.grant a ≡ false
  level_silent nd ng s m = ground (
    arith,
    any-false (denies a) s (level r whole) m nd,
    any-false (grants a) s (level r whole) m ng,
  )

  -- A silent front level leaves the decision to the rows behind it.
  front_silent :
      ((s : Row) → In s (level r whole) → has s.grant a ≡ false)
      → (d : Decision) → Resolves (beyond r whole) a d
      → Resolves whole a d
  front_silent quiet d (silent h) =
      silent (λ s k. elim (In-cases r s whole k) [ inl f ↦ quiet s f | inr b ↦ h s b ])
  front_silent quiet d (denied x m t n best) = denied x (In-beyond r x whole m) t n (λ s k mention.
      elim (In-cases r s whole k) [ inl f ↦ cc (quiet s f) | inr b ↦ best s b mention ])
  front_silent quiet d (granted x m t best clean) =
      granted x (In-beyond r x whole m) t
        (λ s k mention. elim (In-cases r s whole k) [
          | inl f ↦ cc (quiet s f)
          | inr b ↦ best s b mention
        ])
        (λ s k mention l. elim (In-cases r s whole k) [
          | inl f ↦ cc (quiet s f)
          | inr b ↦ clean s b mention l
        ])

walk-Resolves :
    (fuel : ℕ) (a : Action) (rows : List Row)
    → length rows ≤ fuel
    → Descending rows
    → Resolves rows a (walk fuel a rows)
unfolding walk
walk-Resolves zero a [] h sorted = silent (λ r m. elim m [ ])
walk-Resolves zero a (r ∷ rows) h sorted = absurd (omega arith)
walk-Resolves (suc fuel) a [] h sorted = silent (λ r m. elim m [ ])
walk-Resolves (suc fuel) a (r ∷ rows) h sorted =
    let rest = beyond r (r ∷ rows) in
    let ih =
      walk-Resolves fuel a rest (beyond-shorter r rows fuel h)
        (beyond-Descending r (r ∷ rows) sorted) in
    rw (scan_level_lem a r (r ∷ rows) false false) (round ih)
  where
    round :
        Resolves (beyond r (r ∷ rows)) a (walk fuel a (beyond r (r ∷ rows)))
        → Resolves (r ∷ rows) a (
            if any (denies a) (level r (r ∷ rows))
            then deny
            else if any (grants a) (level r (r ∷ rows))
            then allow
            else walk fuel a (beyond r (r ∷ rows)))
    round ih = elim (Bool-cases (any (denies a) (level r (r ∷ rows)))) [
      | inl d ↦ rw d (front_denied a r rows sorted d)
      | inr nd ↦ elim (Bool-cases (any (grants a) (level r (r ∷ rows)))) [
        | inl g ↦ rw (nd, g) (front_granted a r rows sorted nd g)
        | inr ng ↦
            rw (nd, ng) (front_silent a r rows sorted (level_silent a r rows sorted nd ng) _ ih)
      ]
    ]

-- The decision of `resolveAction` is that of the most specific rows which mention the action: a
-- deny if one of these is a deny, an allow if all are grants, and undecided if no row mentions it.
pub resolve_action-Resolves :
    (rows : List Row) (a : Action) → Resolves rows a (resolve_action rows a)
unfolding resolve_action
resolve_action-Resolves rows a = transfer _ (
    walk-Resolves (length rows) a (slice_stable rows) (omega (arith, length-slice_stable rows))
      (slice_stable-Descending rows))
  where
    transfer : (d : Decision) → Resolves (slice_stable rows) a d → Resolves rows a d
    transfer d (silent h) = silent (λ r m. h r (slice_stable-In r rows m))
    transfer d (denied r m t n best) =
        denied r (In-slice_stable r rows m) t n (λ s k. best s (slice_stable-In s rows k))
    transfer d (granted r m t best clean) =
        granted r (In-slice_stable r rows m) t (λ s k. best s (slice_stable-In s rows k))
          (λ s k. clean s (slice_stable-In s rows k))

-- No two decisions are both right.
pub Resolves-unique :
    (rows : List Row) (a : Action) (d e : Decision) → Resolves rows a d → Resolves rows a e → d ≡ e
Resolves-unique rows a d e (silent h) (silent k) = refl
Resolves-unique rows a d e (silent h) (denied r m t n best) = cc (h r m)
Resolves-unique rows a d e (silent h) (granted r m t best clean) = cc (h r m)
Resolves-unique rows a d e (denied r m t n best) (silent h) = cc (h r m)
Resolves-unique rows a d e (denied r m t n best) (denied s k u o top) = refl
Resolves-unique rows a d e (denied r m t n best) (granted s k u top clean) =
    cc (clean r m t (same_level-of_at_most s r (best s k u) (top r m t)))
Resolves-unique rows a d e (granted r m t best clean) (silent h) = cc (h r m)
Resolves-unique rows a d e (granted s k u top clean) (denied r m t n best) =
    cc (clean r m t (same_level-of_at_most s r (best s k u) (top r m t)))
Resolves-unique rows a d e (granted r m t best clean) (granted s k u top also) = refl
