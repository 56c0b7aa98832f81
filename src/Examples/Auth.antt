-- ===== src/Examples/Auth.antt =====
-- Runs of the limiter and of the refresh tokens. The hash of the examples is the text itself with a
-- mark, the signature of a user an empty text.
use file_tag_system.Prelude.{
  ℕ, List, [], ◌∷◌, Bool, true, false, none, some, ◌≡◌, ◌↔◌, ◌≤◌, ◌<◌, refl, subst, arith, find,
}
use file_tag_system.Text.{Text, codes, text_eq}
use file_tag_system.Result.{ok, err, replay}
use file_tag_system.Db.{next_key}
use file_tag_system.Auth.Limiter.{Limiter, allowed}
use file_tag_system.Auth.Limiter.Laws.{fail_each, allowed-fail_each}
use file_tag_system.Auth.Refresh.{Token, issue_refresh, issue_tokens, has_hash, refresh, logout}
use file_tag_system.Auth.Refresh.Logout.{logout-family}
use file_tag_system.Auth.Refresh.Rotation.{
  OneLive, live, issue_tokens-OneLive, refresh-OneLive, refresh-twice,
}

-- Three failures lock for 100.
abbrev three : Limiter
three = record { fails = λ k. 0; until = λ k. none; max = 3; lockout = 100 }

abbrev anna : Text
anna = codes "u:anna"

allowed-fail_each_example :
    ((allowed 50 anna (fail_each anna (10 ∷ 20 ∷ 30 ∷ []) three)).0 ≡ false)
    ↔ ((3 ≤ 3) × (50 < 130))
allowed-fail_each_example =
    allowed-fail_each three anna 10 (20 ∷ 30 ∷ []) 50 (omega arith) refl refl

abbrev mark : Text → Text
mark t = b'#' ∷ t

abbrev unsigned : ℕ → Text
unsigned user = []

abbrev token : ℕ → Text → Bool → Token
token id name revoked = record {
  id = id;
  user_id = 4;
  token_hash = mark name;
  family_id = codes "f";
  expires_at = 1000;
  revoked = revoked;
}

abbrev first : List Token
first = token 1 (codes "a") false ∷ []

abbrev second : List Token
second = token 1 (codes "a") true ∷ record (token 2 (codes "b") false) { expires_at = 1100 } ∷ []

fresh-OneLive : OneLive (issue_tokens mark 900 unsigned [] 100 (codes "f") (codes "a") 4).1
fresh-OneLive =
    issue_tokens-OneLive mark 900 unsigned [] 100 (codes "f") (codes "a") 4 (λ f. omega arith) refl

issued : (issue_tokens mark 900 unsigned [] 100 (codes "f") (codes "a") 4).1 ≡ first
unfolding issue_tokens issue_refresh next_key
issued = refl

rotate :
    refresh mark 900 unsigned first 200 (codes "b") (codes "a")
    ≡ (ok (record { access = []; refresh = codes "b"; user_id = 4 }), second)
unfolding refresh issue_refresh next_key text_eq
rotate = refl

refresh-OneLive_example : OneLive (refresh mark 900 unsigned first 200 (codes "b") (codes "a")).1
refresh-OneLive_example =
    refresh-OneLive mark 900 unsigned first 200 (codes "b") (codes "a")
      (subst OneLive issued fresh-OneLive)

refresh-twice_example :
    (t : Token) × (find (has_hash mark (codes "a")) first ≡ some t)
    × ((refresh mark 900 unsigned second 300 (codes "c") (codes "a")).0 ≡ err replay)
    × (live t.family_id (refresh mark 900 unsigned second 300 (codes "c") (codes "a")).1 ≡ [])
refresh-twice_example =
    refresh-twice mark 900 unsigned first second 200 300 (codes "b") (codes "c") (codes "a")
      (record { access = []; refresh = codes "b"; user_id = 4 }) rotate

-- A later login of the same user, in a family of its own.
abbrev elsewhere : Token
elsewhere = record (token 3 (codes "c") false) { family_id = codes "g" }

abbrev both : List Token
both = token 1 (codes "a") false ∷ elsewhere ∷ []

logout-family_example :
    (live (codes "f") (logout mark both (codes "a")) ≡ [])
    × ((refresh mark 900 unsigned (logout mark both (codes "a")) 200 (codes "d") (codes "c")).0
        ≡ (refresh mark 900 unsigned both 200 (codes "d") (codes "c")).0)
unfolding text_eq
logout-family_example =
    logout-family mark 900 unsigned both (codes "a") (codes "c") (token 1 (codes "a") false)
      elsewhere 200 (codes "d") refl refl
