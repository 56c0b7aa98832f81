-- ===== src/Auth/Login.antt =====
-- server/internal/auth/login.go: the login with a password, and its second step. What other
-- packages compute is one record; the random tokens that a login draws are arguments.
pub mod Outcomes
pub mod Lockout
use file_tag_system.Prelude.{
  ℕ, List, [], ◌∷◌, ◌++◌, Bool, true, false, ◌&&◌, ◌||◌, not, Option, none, some, if◌then◌else◌,
}
use file_tag_system.Text.{Text, codes}
use file_tag_system.Text.Decimal.{format_int}
use file_tag_system.Result.{Result, ok, err, locked, invalid_credentials, found}
use file_tag_system.Auth.Limiter.{Limiter, allowed, fail, reset}
use file_tag_system.Auth.Refresh.{Issued, issue_tokens}
use file_tag_system.Auth.Accounts.{Accounts, User, get_user, credentials}
use file_tag_system.Auth.TwoFactor.{two_fa_enabled, verify_two_fa}

-- bcrypt, SHA-256, signing and reading of tokens, decryption, the check of a time-based code; and
-- the lifetime of a refresh token.
pub record Crypto : Type 0 where
  pub verify_password : Text → Text → Bool
  pub dummy_hash : Text
  pub hash : Text → Text
  pub sign : ℕ → Text
  pub sign_pending : ℕ → Text
  pub read_pending : Text → Option ℕ
  pub decrypt : Text → Option Text
  pub totp : Text → Text → Bool
  pub refresh_ttl : ℕ

-- `LoginResult`
pub data LoginResult : Type 0 where
  two_fa_required : User → Text → LoginResult
  signed_in : User → Issued → LoginResult

-- What a login reads and changes.
pub record Session : Type 0 where
  pub accounts : Accounts
  pub limiter : Limiter

-- The two random tokens of a new pair.
pub record Drawn : Type 0 where
  pub family : Text
  pub token : Text

abbrev pub user_key : Text → Text
user_key name = codes "u:" ++ name

abbrev pub ip_key : Text → Text
ip_key ip = codes "ip:" ++ ip

abbrev pub two_fa_key : ℕ → Text
two_fa_key id = codes "2fa:" ++ format_int id

tokens_for : Crypto → Accounts → ℕ → Drawn → User → ℕ → Result LoginResult × Accounts
tokens_for c acc now d u id =
    let (issued, rows) =
      issue_tokens c.hash c.refresh_ttl c.sign acc.tokens now d.family d.token id in
    (ok (signed_in u issued), record acc { tokens = rows })

by_factor : Crypto → Accounts → ℕ → Drawn → User → ℕ → Result Bool → Result LoginResult × Accounts
unfolding tokens_for
by_factor c acc now d u id (err e) = (err e, acc)
by_factor c acc now d u id (ok true) = (ok (two_fa_required u (c.sign_pending id)), acc)
by_factor c acc now d u id (ok false) = tokens_for c acc now d u id

by_user : Crypto → Accounts → ℕ → Drawn → ℕ → Result User → Result LoginResult × Accounts
unfolding by_factor
by_user c acc now d id (err e) = (err e, acc)
by_user c acc now d id (ok u) = by_factor c acc now d u id (two_fa_enabled c.decrypt acc id)

-- `finishLogin`
unfoldable pub finish_login : Crypto → Accounts → ℕ → Drawn → ℕ → Result LoginResult × Accounts
unfolding by_user
finish_login c acc now d id = by_user c acc now d id (get_user acc id)

admit : Bool → Bool → User → Option User
admit active right u = if not active || not right then none else some u

-- The password is checked whether the user is there or not; `none` is a refusal.
checked : Crypto → Text → Option User → Option User
unfolding admit
checked c password none = let spent = c.verify_password c.dummy_hash password in none
checked c password (some u) = admit u.is_active (c.verify_password u.password_hash password) u

by_check : Crypto → Session → ℕ → Drawn → Text → Text → Option User → Result LoginResult × Session
unfolding finish_login
by_check c s now d name ip none = (
  err invalid_credentials,
  record s { limiter = fail now (ip_key ip) (fail now (user_key name) s.limiter) },
)
by_check c s now d name ip (some u) =
    let (r, acc) = finish_login c s.accounts now d u.id in
    (r, record { accounts = acc; limiter = reset (user_key name) s.limiter })

-- `Login`
unfoldable pub login :
    Crypto → Session → ℕ → Drawn → Text → Text → Text → Result LoginResult × Session
unfolding by_check checked
login c s now d name password ip =
    let (by_name, first) = allowed now (user_key name) s.limiter in
    let (by_ip, second) = allowed now (ip_key ip) first in
    if not by_name
    then (err locked, record s { limiter = first })
    else if not by_ip
    then (err locked, record s { limiter = second })
    else by_check c (record s { limiter = second }) now d name ip
        (checked c password (credentials s.accounts name))

after_code :
    Crypto → Session → ℕ → Drawn → ℕ → Result Bool × Accounts → Result LoginResult × Session
unfolding tokens_for
after_code c s now d id (err e, acc) = (err e, record s { accounts = acc })
after_code c s now d id (ok false, acc) = (
  err invalid_credentials,
  record { accounts = acc; limiter = fail now (two_fa_key id) s.limiter },
)
after_code c s now d id (ok true, acc) =
    let l = reset (two_fa_key id) s.limiter in
    elim (get_user acc id) [
      | err e ↦ (err e, record { accounts = acc; limiter = l })
      | ok u ↦
          let (r, acc') = tokens_for c acc now d u id in
          (r, record { accounts = acc'; limiter = l })
    ]

with_code : Crypto → Session → ℕ → Drawn → Text → Option ℕ → Result LoginResult × Session
unfolding after_code
with_code c s now d code none = (err invalid_credentials, s)
with_code c s now d code (some id) =
    let (may, l) = allowed now (two_fa_key id) s.limiter in
    if not may
    then (err locked, record s { limiter = l })
    else after_code c (record s { limiter = l }) now d id
        (verify_two_fa c.decrypt c.totp c.hash s.accounts id code)

-- `CompleteTwoFA`
unfoldable pub complete_two_fa :
    Crypto → Session → ℕ → Drawn → Text → Text → Result LoginResult × Session
unfolding with_code
complete_two_fa c s now d pending code = with_code c s now d code (c.read_pending pending)
