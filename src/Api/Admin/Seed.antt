-- ===== src/Api/Admin/Seed.antt =====
-- What `Bootstrap` of server/internal/api/server.go leaves behind.
use file_tag_system.Prelude.{
  ℕ, [], ◌∷◌, ◌++◌, Bool, true, ◌≡◌, refl, sym, ap, ◌∙◌, subst, Option, ==_refl, any, not, ◌||◌,
}
use file_tag_system.Text.{Text, codes, text_eq}
use file_tag_system.Models.{Action}
use file_tag_system.Result.{
  Result, ok, err, ok_injective, >>=-eq-ok, guard-eq-ok, found, bad_password, constraint,
}
use file_tag_system.Db.{Db, next_key}
use file_tag_system.Perm.Resolve.{resolve, fetch_rows, fetch_each, reached, is_principal, row_of}
use file_tag_system.Perm.Resolve.Chain.{fetch_rows-add}
use file_tag_system.Perm.Admin.{insert_permission, stored}
use file_tag_system.Perm.Admin.Escalation.{check-admin_only}
use file_tag_system.Auth.Accounts.{User, Accounts, create_user}
use file_tag_system.Api.{State}
use file_tag_system.Api.Admin.{bootstrap, seed, unless_users, system_admin}

-- The row of the seed reaches every target.
seeded-rows :
    (db : Db) (uid : ℕ) (sid : ℕ) (t : Text)
    → db.permissions ≡ []
    → fetch_rows (insert_permission db (system_admin uid)).1 uid [] sid t
      ≡ row_of (stored db (system_admin uid)) [] ∷ []
unfolding insert_permission reached is_principal
seeded-rows db uid sid t bare =
    fetch_rows-add db uid [] sid t (stored db (system_admin uid)) ∙ rw (no_rows, ==_refl uid) refl
  where
    no_rows : fetch_rows db uid [] sid t ≡ []
    no_rows = unfold fetch_rows fetch_each in rw bare refl

seeded-may :
    (db : Db) (uid : ℕ) (sid : ℕ) (t : Text) (a : Action)
    → db.permissions ≡ []
    → resolve (insert_permission db (system_admin uid)).1 uid [] sid t a ≡ true
unfolding resolve
seeded-may db uid sid t a bare = rw (seeded-rows db uid sid t bare) (
    check-admin_only (row_of (stored db (system_admin uid)) []) a (unfold row_of in refl)
      (unfold row_of in refl))

-- The first user, as `CreateUser` stores it.
first_user :
    (hash : Text → Option Text) (acc acc' : Accounts) (username email password : Text) (uid : ℕ)
    → acc.users ≡ []
    → create_user hash acc username email password ≡ ok (uid, acc')
    → (u : User) × (acc'.users ≡ u ∷ [])
      × (u.id ≡ uid)
      × (u.username ≡ username)
      × (u.is_active ≡ true)
unfolding create_user
first_user hash acc acc' username email password uid fresh h =
    let (digest, e, next) = >>=-eq-ok (found bad_password (hash password)) _ h in
    let (free, done) =
      guard-eq-ok
        (not (any (λ (u : User). text_eq u.username username || text_eq u.email email) acc.users))
        constraint _ next in
    let row : User = record {
      id = next_key (λ (u : User). u.id) acc.users;
      username = username;
      email = email;
      password_hash = digest;
      is_active = true;
    } in
    let same = ok_injective done in
    (
      row,
      ap (λ (r : ℕ × Accounts). r.1.users) (sym same) ∙ ap (λ us. us ++ row ∷ []) fresh,
      ap (λ (r : ℕ × Accounts). r.0) same,
      refl,
      refl,
    )

-- On a server without users and permissions, `Bootstrap` leaves one user, who is active and may do
-- every action on every path of every storage.
pub bootstrap-admin :
    (hash : Text → Option Text) (s s' : State) (username password : Text)
    → s.accounts.users ≡ []
    → s.db.permissions ≡ []
    → bootstrap hash s username password ≡ ok (true, s')
    → (u : User) × (s'.accounts.users ≡ u ∷ [])
      × (u.username ≡ username)
      × (u.is_active ≡ true)
      × ((sid : ℕ) (t : Text) (a : Action) → resolve s'.db u.id [] sid t a ≡ true)
unfolding bootstrap seed unless_users
bootstrap-admin hash s s' username password fresh bare h =
    by_created made_user refl
      (subst (λ us. unless_users s (seed s made_user) us ≡ ok (true, s')) fresh h)
  where
    made_user : Result (ℕ × Accounts)
    made_user = create_user hash s.accounts username (username ++ codes "@local") password

    by_created :
        (r : Result (ℕ × Accounts))
        → made_user ≡ r
        → seed s r ≡ ok (true, s')
        → (u : User) × (s'.accounts.users ≡ u ∷ [])
          × (u.username ≡ username)
          × (u.is_active ≡ true)
          × ((sid : ℕ) (t : Text) (a : Action) → resolve s'.db u.id [] sid t a ≡ true)
    by_created (err e) made k = cc
    by_created (ok (uid, acc)) made k =
        let (u, users, id, name, active) =
          first_user hash s.accounts acc username (username ++ codes "@local") password uid fresh
            made in
        let same = ap (λ (x : Bool × State). x.1) (ok_injective k) in
        rw (← same) (u, users, name, active, λ sid t a. rw id (seeded-may s.db uid sid t a bare))
