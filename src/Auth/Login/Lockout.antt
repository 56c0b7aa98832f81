-- ===== src/Auth/Login/Lockout.antt =====
-- `Login` of server/internal/auth/login.go: runs of refused logins for one name.
use file_tag_system.Prelude.{
  ℕ, suc, ◌+◌, ◌≤◌, ◌<◌, Bool, true, false, Option, none, some, ◌≡◌, ◌≢◌, refl, sym, ap, ◌∙◌, inl,
  inr, arith, Bool-cases,
}
use file_tag_system.Text.{Text}
use file_tag_system.Result.{Result, ok, err, locked, not_found, invalid_credentials, found}
use file_tag_system.Auth.Limiter.{Limiter, allowed, fail}
use file_tag_system.Auth.Limiter.Laws.{
  allowed-free, allowed-shut, constants-fail, fails-fail, until-fail_below, until-fail_full,
  maps-fail_other, maps-allowed_other,
}
use file_tag_system.Auth.Accounts.{Accounts, User, user_of}
use file_tag_system.Auth.TwoFactor.{two_fa_enabled}
use file_tag_system.Auth.TwoFactor.Codes.{two_fa_enabled-not_refusal}
use file_tag_system.Auth.Login.{
  Crypto, LoginResult, Session, Drawn, user_key, ip_key, tokens_for, by_factor, by_user,
  finish_login, by_check, login,
}

-- Logins with one name, from any addresses, that were refused as wrong: how many, the time of the
-- last one, and what they lead to.
pub data Guesses (c : Crypto) (name : Text) (s : Session) : ℕ → ℕ → Session → Type 0 where
  start : (t : ℕ) → Guesses c name s 0 t s
  guess :
      {n t : ℕ} {u w : Session} (now : ℕ) (d : Drawn) (password ip : Text)
      → Guesses c name s n t u
      → login c u now d name password ip ≡ (err invalid_credentials, w)
      → Guesses c name s (suc n) now w

-- What the throttle knows of the name after `n` refused logins, the last at `t`.
record Counted (l : Limiter) (name : Text) (n t : ℕ) (m : Limiter) : Type 0 where
  pub max : m.max ≡ l.max
  pub lockout : m.lockout ≡ l.lockout
  pub fails : m.fails (user_key name) ≡ n
  pub free : n < l.max → m.until (user_key name) ≡ none
  pub full : n ≡ l.max → m.until (user_key name) ≡ some (t + l.lockout)

keys_apart : (name ip : Text) → user_key name ≢ ip_key ip
keys_apart name ip e = ground arith

finish_login-not_refusal :
    (c : Crypto) (acc : Accounts) (now : ℕ) (d : Drawn) (id : ℕ)
    → (finish_login c acc now d id).0 ≢ err invalid_credentials
unfolding finish_login by_user by_factor tokens_for
finish_login-not_refusal c acc now d id = by_row (user_of acc id)
  where
    by_answer :
        (u : User) (b : Result Bool)
        → b ≢ err invalid_credentials
        → (by_factor c acc now d u id b).0 ≢ err invalid_credentials
    by_answer u (err e) n h =
        n (ap (λ (r : Result LoginResult). elim r [ err x ↦ err x | ok x ↦ ok true ]) h)
    by_answer u (ok true) n h = cc
    by_answer u (ok false) n h = cc

    by_row :
        (o : Option User) → (by_user c acc now d id (found not_found o)).0 ≢ err invalid_credentials
    by_row none h = cc
    by_row (some u) h =
        by_answer u (two_fa_enabled c.decrypt acc id) (two_fa_enabled-not_refusal c.decrypt acc id)
          h

by_check-refused :
    (c : Crypto) (s w : Session) (now : ℕ) (d : Drawn) (name ip : Text) (o : Option User)
    → by_check c s now d name ip o ≡ (err invalid_credentials, w)
    → w ≡ record s { limiter = fail now (ip_key ip) (fail now (user_key name) s.limiter) }
unfolding by_check
by_check-refused c s w now d name ip none h = sym (ap (λ p. p.1) h)
by_check-refused c s w now d name ip (some u) h =
    absurd (finish_login-not_refusal c s.accounts now d u.id (ap (λ p. p.0) h))

-- A refusal of a name that is not locked counts one failure of the name and one of the address.
login-refused :
    (c : Crypto) (s w : Session) (now : ℕ) (d : Drawn) (name password ip : Text)
    → s.limiter.until (user_key name) ≡ none
    → login c s now d name password ip ≡ (err invalid_credentials, w)
    → w ≡ record s {
      limiter =
          fail now (ip_key ip) (fail now (user_key name) (allowed now (ip_key ip) s.limiter).1);
    }
unfolding login
login-refused c s w now d name password ip open_name h =
    let free = allowed-free s.limiter (user_key name) now open_name in
    elim (Bool-cases (allowed now (ip_key ip) s.limiter).0) [
      | inr n ↦ absurd (other_error (ap (λ p. p.0) (rw (free, n) at h)))
      | inl y ↦
          by_check-refused c (record s { limiter = (allowed now (ip_key ip) s.limiter).1 }) w now d
            name ip _ (rw (free, y) at h)
    ]
  where
    other_error : ◌≡◌ {A = Result LoginResult} (err locked) (err invalid_credentials) → ⊥
    other_error e = cc

Counted-guess :
    (c : Crypto) (l : Limiter) (s w : Session) (n t now : ℕ) (d : Drawn) (name password ip : Text)
    → suc n ≤ l.max
    → Counted l name n t s.limiter
    → login c s now d name password ip ≡ (err invalid_credentials, w)
    → Counted l name (suc n) now w.limiter × (w.accounts ≡ s.accounts)
Counted-guess c l s w n t now d name password ip below k h =
    let apart = keys_apart name ip in
    let open_name = k.free below in
    let m = (allowed now (ip_key ip) s.limiter).1 in
    let named = fail now (user_key name) m in
    let (u0, f0, m0, l0) = maps-allowed_other s.limiter (ip_key ip) (user_key name) now apart in
    let (m1, l1) = constants-fail now (user_key name) m in
    let (m2, l2) = constants-fail now (ip_key ip) named in
    let (u2, f2) = maps-fail_other named (ip_key ip) (user_key name) now apart in
    let counted : m.fails (user_key name) ≡ n = f0 ∙ k.fails in
    let bound : m.max ≡ l.max = m0 ∙ k.max in
    let term : m.lockout ≡ l.lockout = l0 ∙ k.lockout in
    rw (login-refused c s w now d name password ip open_name h) (
      record {
        max = m2 ∙ m1 ∙ bound;
        lockout = l2 ∙ l1 ∙ term;
        fails = f2 ∙ fails-fail now (user_key name) m ∙ ap suc counted;
        free = λ less.
            u2
            ∙ until-fail_below now (user_key name) m (omega (arith, less, counted, bound))
            ∙ u0
            ∙ open_name;
        full = λ reached.
            u2
            ∙ until-fail_full now (user_key name) m (omega (arith, below, bound))
                (omega (arith, reached, counted, bound))
            ∙ ap (λ x. some (now + x)) term;
      },
      refl,
    )

Guesses-Counted :
    (c : Crypto) (name : Text) (s u : Session) (n t : ℕ)
    → s.limiter.fails (user_key name) ≡ 0
    → s.limiter.until (user_key name) ≡ none
    → 0 < s.limiter.max
    → n ≤ s.limiter.max
    → Guesses c name s n t u
    → Counted s.limiter name n t u.limiter × (u.accounts ≡ s.accounts)
Guesses-Counted c name s u n t zero_fails free pos few (start t') = (
  record {
    max = refl;
    lockout = refl;
    fails = zero_fails;
    free = λ less. free;
    full = λ reached. absurd (omega (arith, reached, pos));
  },
  refl,
)
Guesses-Counted c name s w (suc n) now zero_fails free pos few
      (guess {t} {u} now' d password ip run h) =
    let (k, same) = Guesses-Counted c name s u n t zero_fails free pos (omega (arith, few)) run in
    let (k', same') = Counted-guess c s.limiter u w n t now d name password ip few k h in
    (k', same' ∙ same)

-- Take a name with no failures and no lock, under a positive bound. After as many logins with it as
-- the bound says were refused as wrong, from whatever addresses, every further login with the name,
-- with the right password too, is refused as locked until the lockout since the last of them is
-- over; it changes nothing. The refused ones have left the accounts as they were.
pub login-Lockout :
    (c : Crypto) (s u : Session) (t now : ℕ) (d : Drawn) (name password ip : Text)
    → 0 < s.limiter.max
    → s.limiter.fails (user_key name) ≡ 0
    → s.limiter.until (user_key name) ≡ none
    → Guesses c name s s.limiter.max t u
    → now < t + s.limiter.lockout
    → (login c u now d name password ip ≡ (err locked, u)) × (u.accounts ≡ s.accounts)
unfolding login
login-Lockout c s u t now d name password ip pos zero_fails free run early =
    let (k, same) =
      Guesses-Counted c name s u s.limiter.max t zero_fails free pos (omega arith) run in
    (
      rw (allowed-shut u.limiter (user_key name) now (t + s.limiter.lockout) (k.full refl) early)
          refl,
      same,
    )
