-- ===== src/Auth/Refresh/Logout.antt =====
-- `Logout` of server/internal/auth/refresh.go: what a logout ends, seen by `Refresh`.
use file_tag_system.Prelude.{ℕ, List, [], ◌∷◌, ◌≡◌, refl, arith, some, find, map, if◌then◌else◌}
use file_tag_system.Text.{Text, text_eq}
use file_tag_system.Result.{err, replay}
use file_tag_system.Auth.Refresh.{Token, has_hash, revoke_family, refresh_row, refresh, logout}
use file_tag_system.Auth.Refresh.Rotation.{live, live-revoke_family}

module _ (hash : Text → Text) where
  find-revoke_family :
      (given family : Text) (u : Token) (rows : List Token)
      → find (has_hash hash given) rows ≡ some u
      → find (has_hash hash given) (map (revoke_family family) rows) ≡ some (revoke_family family u)
  find-revoke_family given family u [] e = cc
  find-revoke_family given family u (x ∷ rows) e =
      ground (arith, find-revoke_family given family u rows)

  pub logout-rows :
      (rows : List Token) (given : Text) (t : Token)
      → find (has_hash hash given) rows ≡ some t
      → logout hash rows given ≡ map (revoke_family t.family_id) rows
  unfolding logout
  logout-rows rows given t e = rw e refl

module _ (hash : Text → Text) (ttl : ℕ) (sign : ℕ → Text) where
  refresh-found :
      (rows : List Token) (now : ℕ) (tok given : Text) (u : Token)
      → find (has_hash hash given) rows ≡ some u
      → refresh hash ttl sign rows now tok given ≡ refresh_row hash ttl sign rows now tok (some u)
  unfolding refresh
  refresh-found rows now tok given u e = rw e refl

  refresh_row-family :
      (rows ws : List Token) (now : ℕ) (tok family : Text) (u : Token)
      → (refresh_row hash ttl sign ws now tok (some (revoke_family family u))).0 ≡ (
          if text_eq u.family_id family
          then err replay
          else (refresh_row hash ttl sign rows now tok (some u)).0)
  unfolding refresh_row
  refresh_row-family rows ws now tok family u = ground arith

  -- After the logout with a token that is known, no token of its family is in use. Of the tokens
  -- that were known, each of that family is answered with a replay from then on, at any time, and
  -- each of another family is answered as if there had been no logout.
  pub logout-family :
      (rows : List Token) (given other : Text) (t u : Token) (now : ℕ) (tok : Text)
      → find (has_hash hash given) rows ≡ some t
      → find (has_hash hash other) rows ≡ some u
      → (live t.family_id (logout hash rows given) ≡ [])
        × ((refresh hash ttl sign (logout hash rows given) now tok other).0 ≡ (
            if text_eq u.family_id t.family_id
            then err replay
            else (refresh hash ttl sign rows now tok other).0))
  logout-family rows given other t u now tok e k =
      let after = find-revoke_family hash other t.family_id u rows k in
      rw
        (
          logout-rows hash rows given t e,
          refresh-found rows now tok other u k,
          refresh-found (map (revoke_family t.family_id) rows) now tok other
              (revoke_family t.family_id u) after,
        )
        (
          live-revoke_family t.family_id rows,
          refresh_row-family rows (map (revoke_family t.family_id) rows) now tok t.family_id u,
        )
