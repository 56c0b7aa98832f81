-- ===== src/Auth/Accounts/Cleanup.antt =====
-- `DeleteUser` of server/internal/auth/service.go and the rights of users.
use file_tag_system.Prelude.{
  ℕ, List, [], ◌∷◌, Bool, true, false, ◌&&◌, ◌==◌, not, map, select, ◌≡◌, ◌≢◌, ◌↔◌, refl, sym, ap,
  ◌∙◌, subst, arith, In, In-select, In-of_select,
}
use file_tag_system.Text.{Text}
use file_tag_system.Models.{Action, PrincipalType, user, group, Permission}
use file_tag_system.Result.{ok, not_found, guard-eq-ok, ok_injective}
use file_tag_system.Db.{Db}
use file_tag_system.Perm.Resolve.{principal_of, is_principal, resolve}
use file_tag_system.Perm.Resolve.Chain.{resolve-stranger, resolve-select}
use file_tag_system.Auth.Accounts.{
  Accounts, User, Member, same_principal, drop_permissions, delete_user, has_user, user_group_ids,
}

abbrev dropped : ℕ → Permission → Bool
dropped id p = same_principal p.principal_type user && p.principal_id == id

-- What is kept does not speak of the user, and what is dropped speaks of no other.
kept_rows :
    (pt : PrincipalType) (pid id : ℕ)
    → (same_principal pt user && pid == id) ≡ false
    → principal_of pt pid id [] ≡ false
unfolding same_principal principal_of
kept_rows user pid id h = h
kept_rows group pid id h = refl
kept_rows (PrincipalType.other t) pid id h = refl

dropped_rows :
    (pt : PrincipalType) (pid id u : ℕ) (gs : List ℕ)
    → u ≢ id
    → (same_principal pt user && pid == id) ≡ true
    → principal_of pt pid u gs ≡ false
unfolding same_principal principal_of
dropped_rows user pid id u gs n h = ground arith
dropped_rows group pid id u gs n h = cc
dropped_rows (PrincipalType.other t) pid id u gs n h = cc

no_groups :
    (id : ℕ) (ms : List Member)
    → select (λ (m : Member). m.user_id == id) (select (λ (m : Member). not (m.user_id == id)) ms)
      ≡ []
no_groups id [] = refl
no_groups id (m ∷ ms) = ground (arith, no_groups id ms)

-- A row of another user is not among those that go with the user.
module _ {ℓ} {A : Type ℓ} (owner : A → ℕ) (id u : ℕ) (apart : u ≢ id) where
  pub of_others :
      (xs : List A)
      → select (λ x. owner x == u) (select (λ x. not (owner x == id)) xs)
        ≡ select (λ x. owner x == u) xs
  of_others [] = refl
  of_others (x ∷ xs) = ground (arith, of_others xs)

-- Deleting a user removes the user and keeps exactly the other ones. The number is left without
-- groups and without any right, so that a user who gets it later starts with none; every other user
-- keeps the groups and exactly the rights there were.
pub delete_user-rights :
    (db db' : Db) (acc acc' : Accounts) (id : ℕ)
    → delete_user db acc id ≡ ok (db', acc')
    → ((v : User) → In v acc'.users ↔ (In v acc.users × (v.id ≢ id)))
      × (user_group_ids acc' id ≡ [])
      × ((u : ℕ) → u ≢ id → user_group_ids acc' u ≡ user_group_ids acc u)
      × ((sid : ℕ) (t : Text) (a : Action)
          → resolve db' id (user_group_ids acc' id) sid t a ≡ false)
      × ((u : ℕ) (gs : List ℕ) (sid : ℕ) (t : Text) (a : Action)
          → u ≢ id
          → resolve db' u gs sid t a ≡ resolve db u gs sid t a)
unfolding delete_user drop_permissions
delete_user-rights db db' acc acc' id h =
    let (there, done) = guard-eq-ok (has_user acc id) not_found _ h in
    let e = ok_injective done in
    let groups : user_group_ids acc' id ≡ [] =
      ap (λ (r : Db × Accounts). user_group_ids r.1 id) (sym e)
      ∙ unfold user_group_ids in ap (map (λ (m : Member). m.group_id)) (no_groups id acc.members) in
    (
      (λ v.
          subst (λ (r : Db × Accounts). In v r.1.users ↔ (In v acc.users × (v.id ≢ id))) e
            (
              (λ m. let (k, o) = In-of_select others v acc.users m in (k, ground arith)),
              λ (k, n). In-select others v acc.users k (ground arith),
            )),
      groups,
      (λ u n.
          ap (λ (r : Db × Accounts). user_group_ids r.1 u) (sym e)
          ∙ unfold user_group_ids in
            ap (map (λ (m : Member). m.group_id))
              (of_others (λ (m : Member). m.user_id) id u n acc.members)),
      λ sid t a.
          rw groups
            (ap (λ (r : Db × Accounts). resolve r.0 id [] sid t a) (sym e) ∙ stranger sid t a),
      λ u gs sid t a n.
          ap (λ (r : Db × Accounts). resolve r.0 u gs sid t a) (sym e)
          ∙ resolve-select db u gs sid t a (λ p. not (dropped id p)) (λ p k. speaks_not u gs n p k),
    )
  where
    others : User → Bool
    others v = not (v.id == id)

    stranger :
        (sid : ℕ) (t : Text) (a : Action)
        → resolve (drop_permissions user id db) id [] sid t a ≡ false
    stranger sid t a = resolve-stranger (drop_permissions user id db) id [] sid t a (λ p m.
        unfold is_principal in
        kept_rows p.principal_type p.principal_id id
          (ground (arith, (In-of_select (λ p. not (dropped id p)) p db.permissions m).1)))

    speaks_not :
        (u : ℕ) (gs : List ℕ)
        → u ≢ id
        → (p : Permission) → not (dropped id p) ≡ false
        → is_principal u gs p ≡ false
    speaks_not u gs n p k =
        unfold is_principal in dropped_rows p.principal_type p.principal_id id u gs n (ground arith)
