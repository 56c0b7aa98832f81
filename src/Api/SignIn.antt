-- ===== src/Api/SignIn.antt =====
-- server/internal/api/handlers_auth.go, and `requireAuth` of middleware.go. A cookie that is not there
-- is `none`; the cookies that a reply sets stand for it in its body.
use file_tag_system.Prelude.{ℕ, List, [], ◌∷◌, true, false, Option, none, some}
use file_tag_system.Text.{Text, codes}
use file_tag_system.Result.{Result, ok, err, Error, invalid_credentials, locked}
use file_tag_system.Auth.Accounts.{get_user, user_group_ids}
use file_tag_system.Auth.TwoFactor.{setup_two_fa, enable_two_fa, disable_two_fa}
use file_tag_system.Auth.Refresh.{Issued, refresh, logout}
use file_tag_system.Auth.Login.{
  Crypto, LoginResult, two_fa_required, signed_in, Session, Drawn, login, complete_two_fa,
}
use file_tag_system.Audit.{Operation, login_fail, Detail, string, flag, log}
use file_tag_system.Api.{
  State, Principal, Reply, failed, answered, Refusal, go, respond, given, attempt, ◌>>=◌,
  no_content, unauthorized, bad_body, server_error, internal, always, view_user, user_body,
  signed_in_body, two_fa_pending, new_tokens, two_fa_secret, backup_codes, logged_out,
}

-- `requireAuth`: the user of a valid access token, with the groups that the tables have now.
unfoldable pub require_auth : (Text → Option ℕ) → State → Option Text → Option Principal
require_auth verify s none = none
require_auth verify s (some token) = elim (verify token) [
  | none ↦ none
  | some uid ↦ some record { user_id = uid; groups = user_group_ids s.accounts uid }
]

abbrev pub session_of : State → Session
session_of s = record { accounts = s.accounts; limiter = s.limiter }

abbrev pub with_session : State → Session → State
with_session s n = record s { accounts = n.accounts; limiter = n.limiter }

-- An error of a handler that has changed the state.
abbrev pub refuse : State → Refusal → Reply × State
refuse s (status, text) = (failed status text, s)

abbrev pub anonymous_log : State → Option ℕ → Operation → List Detail → State
anonymous_log s user op detail = record s {
  entries = log s.accounts s.entries user op [] none detail;
}

login_error : State → Text → Text → Error → Reply × State
login_error s name ip invalid_credentials =
    refuse
      (anonymous_log s none login_fail
        (string (codes "ip") ip ∷ string (codes "username") name ∷ []))
      (401, codes "invalid credentials")
login_error s name ip locked = refuse s (429, codes "too many attempts, try again later")
login_error s name ip e = refuse s internal

login_reply : State → Text → Text → Result LoginResult → Reply × State
unfolding login_error
login_reply s name ip (err e) = login_error s name ip e
login_reply s name ip (ok (two_fa_required u pending)) = (
  answered 200 (two_fa_pending pending),
  anonymous_log s (some u.id) Operation.login
      (string (codes "ip") ip ∷ flag (codes "twofa") true ∷ []),
)
login_reply s name ip (ok (signed_in u tokens)) = (
  answered 200 (signed_in_body (view_user u) tokens),
  anonymous_log s (some u.id) Operation.login
      (string (codes "ip") ip ∷ flag (codes "twofa") false ∷ []),
)

pub record Credentials : Type 0 where
  pub username : Text
  pub password : Text

-- `handleLogin`
unfoldable pub handle_login : Crypto → ℕ → Drawn → Text → State → Option Credentials → Reply × State
unfolding login_reply
handle_login c now d ip s none = refuse s bad_body
handle_login c now d ip s (some req) =
    let (r, n) = login c (session_of s) now d req.username req.password ip in
    login_reply (with_session s n) req.username ip r

code_reply : State → Result LoginResult → Reply × State
code_reply s (err locked) = refuse s (429, codes "too many attempts, try again later")
code_reply s (err e) = refuse s (401, codes "invalid code")
code_reply s (ok (two_fa_required u pending)) = refuse s (401, codes "invalid code")
code_reply s (ok (signed_in u tokens)) = (answered 200 (signed_in_body (view_user u) tokens), s)

pending_code : Crypto → ℕ → Drawn → State → Text → Option Text → Reply × State
unfolding code_reply
pending_code c now d s code none = refuse s (401, codes "no pending 2FA")
pending_code c now d s code (some pending) =
    let (r, n) = complete_two_fa c (session_of s) now d pending code in
    code_reply (with_session s n) r

-- `handle2FALogin`; of what `CompleteTwoFA` gives back on success, the request for a code is no
-- case.
unfoldable pub handle_two_fa_login :
    Crypto → ℕ → Drawn → State → Option Text → Option Text → Reply × State
unfolding pending_code
handle_two_fa_login c now d s none cookie = refuse s bad_body
handle_two_fa_login c now d s (some code) cookie = pending_code c now d s code cookie

-- `handleLogout`
unfoldable pub handle_logout : Crypto → State → Option Text → Reply × State
handle_logout c s none = (answered 204 logged_out, s)
handle_logout c s (some cookie) =
    let acc = s.accounts in
    (
      answered 204 logged_out,
      record s { accounts = record acc { tokens = logout c.hash acc.tokens cookie } },
    )

refresh_reply : State → Result Issued → Reply × State
refresh_reply s (err e) = refuse s (401, codes "invalid refresh token")
refresh_reply s (ok tokens) = (answered 204 (new_tokens tokens), s)

-- `handleRefresh`
unfoldable pub handle_refresh : Crypto → ℕ → Text → State → Option Text → Reply × State
unfolding refresh_reply
handle_refresh c now drawn s none = refuse s (401, codes "no refresh token")
handle_refresh c now drawn s (some cookie) =
    let acc = s.accounts in
    let (r, rows) = refresh c.hash c.refresh_ttl c.sign acc.tokens now drawn cookie in
    refresh_reply (record s { accounts = record acc { tokens = rows } }) r

-- `handleMe`
unfoldable pub handle_me : State → Principal → Reply × State
handle_me s p = respond s do
  u ← attempt (always unauthorized) (get_user s.accounts p.user_id)
  go (answered 200 (user_body (view_user u)), s)

-- `handle2FASetup`, with the secret that the library draws and its encryption.
unfoldable pub handle_two_fa_setup : Text → Text → State → Principal → Reply × State
handle_two_fa_setup secret encrypted s p = respond s do
  u ← attempt server_error (get_user s.accounts p.user_id)
  acc ← attempt server_error (setup_two_fa s.accounts p.user_id encrypted)
  go (answered 200 (two_fa_secret secret), record s { accounts = acc })

-- `handle2FAEnable`, with the backup codes that are drawn.
unfoldable pub handle_two_fa_enable :
    Crypto → List Text → State → Principal → Option Text → Reply × State
handle_two_fa_enable c drawn s p body = respond s do
  code ← given body bad_body
  acc ←
      attempt (always (400, codes "invalid code"))
        (enable_two_fa c.decrypt c.totp c.hash s.accounts p.user_id code drawn)
  go (answered 200 (backup_codes drawn), record s { accounts = acc })

-- `handle2FADisable`
unfoldable pub handle_two_fa_disable : State → Principal → Reply × State
handle_two_fa_disable s p =
    (no_content, record s { accounts = disable_two_fa s.accounts p.user_id })
