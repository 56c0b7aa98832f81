-- ===== src/Examples/Server.antt =====
-- Runs of accounts, of the login and of requests, on a server with two users and no permissions. A
-- password is its own hash, and a token of any text is one of the first user.
use file_tag_system.Prelude.{
  ℕ, List, [], ◌∷◌, true, false, none, some, ◌≡◌, ◌≢◌, ◌↔◌, In, refl, arith, ◌==◌,
}
use file_tag_system.Text.{Text, codes, text_eq}
use file_tag_system.Models.{Action, manage}
use file_tag_system.Result.{ok, err, not_exist, locked, invalid_credentials}
use file_tag_system.Perm.Resolve.{resolve}
use file_tag_system.Perm.Resolve.Chain.{resolve-stranger}
use file_tag_system.Auth.Accounts.{
  User, Accounts, no_accounts, delete_user, drop_permissions, user_group_ids, credentials,
}
use file_tag_system.Auth.Accounts.Cleanup.{delete_user-rights}
use file_tag_system.Auth.Limiter.{Limiter, allowed, fail}
use file_tag_system.Auth.TwoFactor.{verify_two_fa, load_secret, two_fa_enabled}
use file_tag_system.Auth.TwoFactor.Codes.{verify_two_fa-once}
use file_tag_system.Auth.Login.{Crypto, Session, Drawn, login, two_fa_required}
use file_tag_system.Auth.Login.Lockout.{start, guess, login-Lockout}
use file_tag_system.Auth.Login.Outcomes.{Accepted, login-Accepted}
use file_tag_system.Api.{State}
use file_tag_system.Api.Previews.{Viewer}
use file_tag_system.Api.SignIn.{require_auth}
use file_tag_system.Api.Calls.{World, Call, create_field_type, serve}
use file_tag_system.Api.Calls.Access.{serve-Refused}
use file_tag_system.Api.Calls.Stops.{Refused}
use file_tag_system.Api.Calls.Needs.{need_of, permitted}
use file_tag_system.Examples.{bare}

abbrev person : ℕ → Text → User
person id name = record {
  id = id;
  username = name;
  email = name;
  password_hash = codes "pw";
  is_active = true;
}

abbrev anna : User
anna = person 1 (codes "anna")

abbrev bob : User
bob = person 2 (codes "bob")

-- Anna has a second factor with one backup code; Bob is in a group.
abbrev staff : Accounts
staff = record no_accounts {
  users = anna ∷ bob ∷ [];
  groups = record { id = 7; name = codes "team" } ∷ [];
  members = record { user_id = 2; group_id = 7 } ∷ [];
  two_factors = record { user_id = 1; totp_secret = some (codes "s"); is_enabled = true } ∷ [];
  backup_codes = record { user_id = 1; code_hash = codes "b1"; used = false } ∷ [];
}

abbrev itself : Text → Text
itself t = t

abbrev crypto : Crypto
crypto = record {
  verify_password = text_eq;
  dummy_hash = [];
  hash = itself;
  sign = λ id. [];
  sign_pending = λ id. codes "p";
  read_pending = λ t. some 1;
  decrypt = λ t. some t;
  totp = λ code secret. false;
  refresh_ttl = 900;
}

abbrev pub open_limiter : Limiter
open_limiter = record { fails = λ k. 0; until = λ k. none; max = 3; lockout = 100 }

abbrev session : Limiter → Session
session l = record { accounts = staff; limiter = l }

abbrev drawn : Drawn
drawn = record { family = codes "f"; token = codes "t" }

verify_two_fa-once_example :
    (verify_two_fa crypto.decrypt crypto.totp itself
      (verify_two_fa crypto.decrypt crypto.totp itself staff 1 (codes "b1")).1
      1
      (codes "b1")).0
    ≡ ok false
verify_two_fa-once_example =
    verify_two_fa-once crypto.decrypt crypto.totp itself staff 1 (codes "b1") (codes "s")
      (unfold load_secret in refl) refl

login-Accepted_example :
    Accepted crypto
      (session open_limiter)
      5
      drawn
      (codes "anna")
      (codes "pw")
      (two_fa_required anna (codes "p"))
      (login crypto (session open_limiter) 5 drawn (codes "anna") (codes "pw") (codes "ip")).1
login-Accepted_example =
    login-Accepted crypto (session open_limiter) 5 drawn (codes "anna") (codes "pw") (codes "ip")
      (two_fa_required anna (codes "p"))
      (unfold login allowed credentials text_eq two_fa_enabled in refl)

-- Two failures lock for 100.
abbrev strict : Session
strict = session (record open_limiter { max = 2 })

abbrev wrong : Session → ℕ → Session
wrong s now = (login crypto s now drawn (codes "bob") (codes "guess") (codes "ip")).1

refused_first :
    login crypto strict 5 drawn (codes "bob") (codes "guess") (codes "ip")
    ≡ (err invalid_credentials, wrong strict 5)
unfolding login allowed credentials text_eq
refused_first = refl

refused_again :
    login crypto (wrong strict 5) 9 drawn (codes "bob") (codes "guess") (codes "ip")
    ≡ (err invalid_credentials, wrong (wrong strict 5) 9)
unfolding login allowed fail credentials text_eq
refused_again = refl

login-Lockout_example :
    (login crypto (wrong (wrong strict 5) 9) 108 drawn (codes "bob") (codes "pw") (codes "home")
      ≡ (err locked, wrong (wrong strict 5) 9))
    × ((wrong (wrong strict 5) 9).accounts ≡ staff)
login-Lockout_example =
    login-Lockout crypto strict (wrong (wrong strict 5) 9) 9 108 drawn (codes "bob") (codes "pw")
      (codes "home") (omega arith) refl refl
      (guess 9 drawn (codes "guess") (codes "ip")
        (guess 5 drawn (codes "guess") (codes "ip") (start 0) refused_first) refused_again)
      (omega arith)

abbrev pub server : State
server = record {
  db = bare;
  accounts = staff;
  entries = [];
  limiter = open_limiter;
  jobs = λ id. none;
  cache = λ path. none;
}

-- Every file is an image, its own thumbnail, and cannot be opened.
abbrev viewer : Viewer
viewer = record {
  lower_ext = λ path. codes ".png";
  is_zip = λ path. false;
  open_file = λ root path. none;
  generate = λ image. some image;
  can_write = λ path. true;
}

abbrev pub world : World
world = record {
  disk = record { stat = λ root path. err not_exist; list_dir = λ root path. err not_exist };
  viewer = viewer;
  is_space = λ c. c == b' ';
  fts = λ db query id. false;
  crypto = crypto;
  hash_password = λ t. some t;
  verify_access = λ t. some 1;
  now = 5;
  secret = [];
  encrypted_secret = [];
  drawn_codes = [];
}

abbrev new_type : Call
new_type = create_field_type (some record { name = codes "mood"; allow_multi = true })

serve-Refused_example : Refused server (serve world server (some (codes "t")) new_type)
serve-Refused_example = serve-Refused world server (some (codes "t")) new_type (
    unfold require_auth permitted need_of in
    resolve-stranger bare 1 (user_group_ids staff 1) 0 [] manage (λ p m. elim m [ ]))

abbrev left : Accounts
left = record staff { users = anna ∷ []; members = [] }

delete_user-rights_example :
    ((v : User) → In v left.users ↔ (In v staff.users × (v.id ≢ 2)))
    × (user_group_ids left 2 ≡ [])
    × ((u : ℕ) → u ≢ 2 → user_group_ids left u ≡ user_group_ids staff u)
    × ((sid : ℕ) (t : Text) (a : Action) → resolve bare 2 (user_group_ids left 2) sid t a ≡ false)
    × ((u : ℕ) (gs : List ℕ) (sid : ℕ) (t : Text) (a : Action)
        → u ≢ 2
        → resolve bare u gs sid t a ≡ resolve bare u gs sid t a)
delete_user-rights_example =
    delete_user-rights bare bare staff left 2 (unfold delete_user drop_permissions in refl)
