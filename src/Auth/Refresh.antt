-- ===== src/Auth/Refresh.antt =====
-- server/internal/auth/refresh.go: refresh tokens. The hash (SHA-256), the random token and the
-- signed access token come from libraries and are arguments; time is a number, given to each call.
-- A call that returns an error may still have committed, so a state goes with every result.
pub mod Rotation
pub mod Logout
use file_tag_system.Prelude.{
  ℕ, ◌+◌, List, [], ◌∷◌, ◌++◌, Bool, true, false, ◌&&◌, not, ◌==◌, ltb, Option, none, some, find,
  map, if◌then◌else◌,
}
use file_tag_system.Text.{Text, text_eq}
use file_tag_system.Result.{Result, ok, err, invalid_refresh, replay}
use file_tag_system.Db.{next_key}

-- A row of `refresh_tokens`; `revoked` tells that `revoked_at` is not NULL.
pub record Token : Type 0 where
  pub id : ℕ
  pub user_id : ℕ
  pub token_hash : Text
  pub family_id : Text
  pub expires_at : ℕ
  pub revoked : Bool

pub record Issued : Type 0 where
  pub access : Text
  pub refresh : Text
  pub user_id : ℕ

abbrev pub has_hash : (Text → Text) → Text → Token → Bool
has_hash hash refresh t = text_eq t.token_hash (hash refresh)

-- `UPDATE … WHERE family_id=? AND revoked_at IS NULL`, and `UPDATE … WHERE id=?`
abbrev pub revoke_family : Text → Token → Token
revoke_family family t =
    if text_eq t.family_id family && not t.revoked then record t { revoked = true } else t

abbrev pub revoke_id : ℕ → Token → Token
revoke_id id t = if t.id == id then record t { revoked = true } else t

module _ (hash : Text → Text) (ttl : ℕ) where
  -- `issueRefresh`, with the random token it drew.
  unfoldable pub issue_refresh : List Token → ℕ → Text → ℕ → Text → List Token
  issue_refresh rows now tok user family =
      rows
      ++ record {
        id = next_key (λ (t : Token). t.id) rows;
        user_id = user;
        token_hash = hash tok;
        family_id = family;
        expires_at = now + ttl;
        revoked = false;
      }
        ∷ []

module _ (hash : Text → Text) (ttl : ℕ) (sign : ℕ → Text) where
  -- `IssueTokens`: the family is a second random token.
  unfoldable pub issue_tokens : List Token → ℕ → Text → Text → ℕ → Issued × List Token
  issue_tokens rows now family tok user = (
    record { access = sign user; refresh = tok; user_id = user },
    issue_refresh hash ttl rows now tok user family,
  )

  refresh_row : List Token → ℕ → Text → Option Token → Result Issued × List Token
  refresh_row rows now tok none = (err invalid_refresh, rows)
  refresh_row rows now tok (some t) =
      if t.revoked
      then (err replay, map (revoke_family t.family_id) rows)
      else (if ltb t.expires_at now then (err invalid_refresh, rows) else (
        ok (record { access = sign t.user_id; refresh = tok; user_id = t.user_id }),
        issue_refresh hash ttl (map (revoke_id t.id) rows) now tok t.user_id t.family_id,
      ))

  -- `Refresh`
  unfoldable pub refresh : List Token → ℕ → Text → Text → Result Issued × List Token
  unfolding refresh_row
  refresh rows now tok given = refresh_row rows now tok (find (has_hash hash given) rows)

logout_row : List Token → Option Token → List Token
logout_row rows none = rows
logout_row rows (some t) = map (revoke_family t.family_id) rows

-- `Logout`
unfoldable pub logout : (Text → Text) → List Token → Text → List Token
unfolding logout_row
logout hash rows given = logout_row rows (find (has_hash hash given) rows)
