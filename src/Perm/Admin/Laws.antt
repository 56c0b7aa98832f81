-- ===== src/Perm/Admin/Laws.antt =====
-- `Grant` and `DeletePermission` of server/internal/perm/admin.go: admission and effect.
use mathlib.Core.List.{append-nil}
use file_tag_system.Prelude.{
  ℕ, List, [], ◌∷◌, true, false, ◌≡◌, ◌↔◌, ◌⊎◌, inl, inr, refl, sym, ap, ◌∙◌, arith, select,
  select-append, ==_refl, ◌<◌, In, not, Bool-cases, ◌==◌,
}
use file_tag_system.Text.{Text}
use file_tag_system.Models.{Action, Permission, admin, has, covers}
use file_tag_system.Models.Coverage.{covers-iff_Includes}
use file_tag_system.Result.{Result, Error, forbidden, ok, err}
use file_tag_system.Db.{Db, next_key}
use file_tag_system.Db.Keys.{lt-next_key}
use file_tag_system.Perm.Resolve.{is_principal, resolve, resolve_effective, has-resolve_effective}
use file_tag_system.Perm.Resolve.Chain.{resolve-other}
use file_tag_system.Perm.Admin.{
  stored, insert_permission, resource_context, grant_at, grant, delete_permission,
}

-- What the granter must have at the resource of the permission.
abbrev pub MayGrant : Db → ℕ → List ℕ → Permission → ℕ → Text → Type 0
MayGrant db granter groups p sid path =
    (resolve db granter groups sid path admin ≡ true)
    × ((p.is_deny ≡ true)
        ⊎ ((a : Action) → has p.grant a ≡ true → resolve db granter groups sid path a ≡ true))

module _ (db : Db) (granter : ℕ) (groups : List ℕ) (p : Permission) (sid : ℕ) (path : Text)
    (here : resource_context db p ≡ ok (sid, path)) where
  grant-admits :
      MayGrant db granter groups p sid path
      → grant db granter groups p ≡ ok (insert_permission db p)
  unfolding grant
  grant-admits (may, inl deny) =
      rw here (ground (arith, has-resolve_effective db granter groups sid path admin))
  grant-admits (may, inr within) = rw here (
      ground (
        arith,
        has-resolve_effective db granter groups sid path admin,
        (covers-iff_Includes (resolve_effective db granter groups sid path) p.grant).1
            (λ a h. has-resolve_effective db granter groups sid path a ∙ within a h),
      ))

  grant-needs :
      (r : ℕ × Db) → grant db granter groups p ≡ ok r → MayGrant db granter groups p sid path
  unfolding grant
  grant-needs r h =
      let eff = resolve_effective db granter groups sid path in
      let can = has-resolve_effective db granter groups sid path in
      let g : grant_at db granter groups p (ok (sid, path)) ≡ ok r = rw here at h in
      elim (Bool-cases (has eff admin)) [
        | inr no_admin ↦ absurd (ground arith)
        | inl is_admin ↦ (
          sym (can admin) ∙ is_admin,
          elim (Bool-cases p.is_deny) [
            | inl deny ↦ inl deny
            | inr give ↦ elim (Bool-cases (covers eff p.grant)) [
              | inr over ↦ absurd (ground arith)
              | inl within ↦
                  inr (λ a m. sym (can a) ∙ (covers-iff_Includes eff p.grant).0 within a m)
            ]
          ],
        )
      ]

  -- `Grant` succeeds exactly when the granter may administer the resource and, unless the row is a
  -- deny, has every action that the row grants.
  pub grant-iff_MayGrant :
      (grant db granter groups p ≡ ok (insert_permission db p))
      ↔ MayGrant db granter groups p sid path
  grant-iff_MayGrant = (grant-needs _, grant-admits)

  grant-result : (r : ℕ × Db) → grant db granter groups p ≡ ok r → r ≡ insert_permission db p
  grant-result r h = injective (sym h ∙ grant-admits (grant-needs r h))
    where
      injective : {x y : ℕ × Db} → ok x ≡ ok y → x ≡ y
      injective e = ground arith

  -- Whoever is not the subject of a granted row may do afterwards exactly what was allowed before,
  -- at every target.
  pub grant-others :
      (r : ℕ × Db) (u : ℕ) (gs : List ℕ) (s : ℕ) (t : Text) (a : Action)
      → grant db granter groups p ≡ ok r
      → is_principal u gs p ≡ false
      → resolve r.1 u gs s t a ≡ resolve db u gs s t a
  unfolding insert_permission is_principal
  grant-others r u gs s t a h other =
      rw (grant-result r h) (resolve-other db u gs s t (stored db p) a other)

select-fresh :
    (id : ℕ) (ps : List Permission)
    → ((q : Permission) → In q ps → q.id < id)
    → select (λ (q : Permission). not (q.id == id)) ps ≡ ps
select-fresh id [] h = refl
select-fresh id (q ∷ ps) h = ground (arith, h q (inl refl), select-fresh id ps (λ r m. h r (inr m)))

-- Revoking a permission that was just granted restores the table.
pub delete_permission-insert_permission :
    (db : Db) (p : Permission)
    → delete_permission (insert_permission db p).1 (insert_permission db p).0 ≡ db
unfolding delete_permission insert_permission
delete_permission-insert_permission db p =
    let id = next_key (λ (q : Permission). q.id) db.permissions in
    ap (λ ps. record db { permissions = ps })
      (select-append (λ (q : Permission). not (q.id == id)) db.permissions (stored db p ∷ [])
        ∙ rw
            (
              select-fresh id db.permissions
                  (λ q m. lt-next_key (λ (q : Permission). q.id) q db.permissions m),
              ==_refl id,
            )
            (append-nil _))

-- Where the resource is none, or is one that the granter may not administer, the grant is an error.
pub grant-denied :
    (db : Db) (granter : ℕ) (groups : List ℕ) (p : Permission) (o : Result (ℕ × Text))
    → resource_context db p ≡ o
    → elim o [ err e ↦ false | ok (sid, path) ↦ resolve db granter groups sid path admin ] ≡ false
    → (e : Error) × (grant db granter groups p ≡ err e)
unfolding grant
grant-denied db granter groups p (err e) here h = (e, rw here refl)
grant-denied db granter groups p (ok (sid, path)) here h =
    (forbidden, rw here (ground (arith, has-resolve_effective db granter groups sid path admin)))
