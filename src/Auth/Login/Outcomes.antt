-- ===== src/Auth/Login/Outcomes.antt =====
-- `Login` and `CompleteTwoFA` of server/internal/auth/login.go: what a success took.
use file_tag_system.Prelude.{
  ℕ, Bool, true, false, Option, none, some, ◌≡◌, ◌⊎◌, inl, inr, refl, sym, ap, ◌∙◌, Bool-cases,
  some_injective,
}
use file_tag_system.Text.{Text}
use file_tag_system.Result.{Result, ok, err, ok_injective}
use file_tag_system.Auth.Limiter.{allowed}
use file_tag_system.Auth.Refresh.{issue_tokens}
use file_tag_system.Auth.Accounts.{Accounts, User, get_user, credentials}
use file_tag_system.Auth.TwoFactor.{two_fa_enabled}
use file_tag_system.Auth.Login.{
  Crypto, LoginResult, two_fa_required, signed_in, Session, Drawn, user_key, ip_key, tokens_for,
  by_factor, by_user, finish_login, admit, checked, by_check, login,
}

-- How an accepted login ends for the user of this row, number `id`: with a second factor the result
-- is the pending token alone and the tables are as before; without one it is the pair of tokens,
-- and the tables have the row of the refresh token more.
abbrev pub Outcome : Crypto → Accounts → ℕ → Drawn → User → ℕ → LoginResult → Accounts → Type 0
Outcome c acc now d v id r acc' =
    let (issued, rows) =
      issue_tokens c.hash c.refresh_ttl c.sign acc.tokens now d.family d.token id in
    ((two_fa_enabled c.decrypt acc id ≡ ok true)
      × (r ≡ two_fa_required v (c.sign_pending id))
      × (acc' ≡ acc))
    ⊎ ((two_fa_enabled c.decrypt acc id ≡ ok false)
        × (r ≡ signed_in v issued)
        × (acc' ≡ record acc { tokens = rows }))

-- What stands behind a login that was accepted: the user of this name, active, with this password,
-- whose row is read again by its number.
abbrev pub Accepted : Crypto → Session → ℕ → Drawn → Text → Text → LoginResult → Session → Type 0
Accepted c s now d name password r s' =
    (u : User) × (v : User) × (credentials s.accounts name ≡ some u)
    × (u.is_active ≡ true)
    × (c.verify_password u.password_hash password ≡ true)
    × (get_user s.accounts u.id ≡ ok v)
    × Outcome c s.accounts now d v u.id r s'.accounts

admit-some :
    (active right : Bool) (v u : User)
    → admit active right v ≡ some u
    → (v ≡ u) × (active ≡ true) × (right ≡ true)
unfolding admit
admit-some true true v u h = (some_injective h, refl, refl)
admit-some true false v u h = cc
admit-some false right v u h = cc

checked-some :
    (c : Crypto) (password : Text) (o : Option User) (u : User)
    → checked c password o ≡ some u
    → (o ≡ some u) × (u.is_active ≡ true) × (c.verify_password u.password_hash password ≡ true)
unfolding checked
checked-some c password none u h = cc
checked-some c password (some v) u h =
    let (same, active, right) =
      admit-some v.is_active (c.verify_password v.password_hash password) v u h in
    (
      ap some same,
      ap (λ (x : User). x.is_active) (sym same) ∙ active,
      ap (λ (x : User). c.verify_password x.password_hash password) (sym same) ∙ right,
    )

by_factor-ok :
    (c : Crypto) (acc : Accounts) (now : ℕ) (d : Drawn) (u : User) (id : ℕ) (r : LoginResult)
    (b : Result Bool)
    → two_fa_enabled c.decrypt acc id ≡ b
    → (by_factor c acc now d u id b).0 ≡ ok r
    → Outcome c acc now d u id r (by_factor c acc now d u id b).1
unfolding by_factor tokens_for
by_factor-ok c acc now d u id r (err e) same h = cc
by_factor-ok c acc now d u id r (ok true) same h = inl (same, sym (ok_injective h), refl)
by_factor-ok c acc now d u id r (ok false) same h = inr (same, sym (ok_injective h), refl)

finish_login-ok :
    (c : Crypto) (acc : Accounts) (now : ℕ) (d : Drawn) (id : ℕ) (r : LoginResult)
    → (finish_login c acc now d id).0 ≡ ok r
    → (v : User) × (get_user acc id ≡ ok v)
      × Outcome c acc now d v id r (finish_login c acc now d id).1
unfolding finish_login
finish_login-ok c acc now d id r h = by_row (get_user acc id) refl h
  where
    by_row :
        (q : Result User)
        → get_user acc id ≡ q
        → (by_user c acc now d id q).0 ≡ ok r
        → (v : User) × (get_user acc id ≡ ok v)
          × Outcome c acc now d v id r (by_user c acc now d id q).1
    by_row (err e) same k = cc
    by_row (ok u) same k =
        (u, same, by_factor-ok c acc now d u id r (two_fa_enabled c.decrypt acc id) refl k)

by_check-ok :
    (c : Crypto) (s : Session) (now : ℕ) (d : Drawn) (name password ip : Text) (r : LoginResult)
    (o : Option User)
    → checked c password (credentials s.accounts name) ≡ o
    → (by_check c s now d name ip o).0 ≡ ok r
    → Accepted c s now d name password r (by_check c s now d name ip o).1
unfolding by_check
by_check-ok c s now d name password ip r none e h = cc
by_check-ok c s now d name password ip r (some u) e h =
    let (found_u, active, right) = checked-some c password (credentials s.accounts name) u e in
    let (v, row, ends) = finish_login-ok c s.accounts now d u.id r h in
    (u, v, found_u, active, right, row, ends)

-- A login that succeeds had the name of a user who is active, with the password that fits. If that
-- user has a second factor, the result is the pending token and no access or refresh token, and the
-- tables are as before; if not, it is the new pair of tokens of that user, and the tables gain the
-- row of the refresh token and nothing else.
pub login-Accepted :
    (c : Crypto) (s : Session) (now : ℕ) (d : Drawn) (name password ip : Text) (r : LoginResult)
    → (login c s now d name password ip).0 ≡ ok r
    → Accepted c s now d name password r (login c s now d name password ip).1
unfolding login
login-Accepted c s now d name password ip r h =
    elim (Bool-cases (allowed now (user_key name) s.limiter).0) [
      | inr n ↦ cc (rw n at h)
      | inl y ↦
          elim (Bool-cases (allowed now (ip_key ip) (allowed now (user_key name) s.limiter).1).0) [
            | inr n ↦ cc (rw (y, n) at h)
            | inl z ↦
                rw (y, z)
                  (by_check-ok c
                    (record s {
                      limiter =
                          (allowed now (ip_key ip) (allowed now (user_key name) s.limiter).1).1;
                    })
                    now d name password ip r _ refl (rw (y, z) at h))
          ]
    ]
