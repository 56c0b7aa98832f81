-- ===== src/Auth/Refresh/Rotation.antt =====
-- `Refresh` and `IssueTokens` of server/internal/auth/refresh.go: the tokens of a family in use.
use file_tag_system.Prelude.{
  ℕ, suc, ◌+◌, ◌≤◌, List, [], ◌∷◌, Bool, true, false, ◌&&◌, not, ◌==◌, ltb, ◌≡◌, inl, inr, refl,
  sym, ap, ◌∙◌, subst, arith, Option, none, some, In, find, find-some, some_injective, ==_refl, map,
  length, select, select-append, find-append, length-append, Bool-cases, if◌then◌else◌,
}
use file_tag_system.Text.{Text, text_eq}
use file_tag_system.Text.Laws.{text_eq_refl, eq_of_text_eq}
use file_tag_system.Result.{Error, Result, ok, err, invalid_refresh, replay}
use file_tag_system.Auth.Refresh.{
  Token, Issued, issue_refresh, issue_tokens, has_hash, revoke_family, revoke_id, refresh_row,
  refresh,
}

abbrev pub is_live : Text → Token → Bool
is_live family t = text_eq t.family_id family && not t.revoked

-- The tokens of a family that are not revoked.
abbrev pub live : Text → List Token → List Token
live family rows = select (is_live family) rows

-- No family has two tokens in use.
abbrev pub OneLive : List Token → Type 0
OneLive rows = (family : Text) → length (live family rows) ≤ 1

live-revoke_id :
    (family : Text) (id : ℕ) (rows : List Token)
    → length (live family (map (revoke_id id) rows)) ≤ length (live family rows)
live-revoke_id family id [] = omega arith
live-revoke_id family id (t ∷ rows) =
    let rest = live-revoke_id family id rows in ground (arith, rest)

-- A family loses the token itself.
live-revoke_self :
    (id : ℕ) (t : Token) (rows : List Token)
    → In t rows
    → t.id ≡ id
    → t.revoked ≡ false
    → suc (length (live t.family_id (map (revoke_id id) rows))) ≤ length (live t.family_id rows)
live-revoke_self id t [] m e r = elim m [ ]
live-revoke_self id t (x ∷ rows) (inl p) e r =
    let rest = live-revoke_id t.family_id id rows in
    let self = text_eq_refl t.family_id in
    let named : (t.id == id) ≡ true = ground arith in
    rw (← p) (ground (arith, rest, self, named, r))
live-revoke_self id t (x ∷ rows) (inr m) e r =
    let rest = live-revoke_self id t rows m e r in ground (arith, rest)

pub live-revoke_family :
    (family : Text) (rows : List Token) → live family (map (revoke_family family) rows) ≡ []
live-revoke_family family [] = refl
live-revoke_family family (t ∷ rows) = ground (arith, live-revoke_family family rows)

live-issue_refresh :
    (hash : Text → Text) (ttl : ℕ) (rows : List Token) (now : ℕ) (tok : Text) (user : ℕ)
    (family f : Text)
    → length (live f (issue_refresh hash ttl rows now tok user family))
      ≡ length (live f rows) + (if text_eq family f then 1 else 0)
unfolding issue_refresh
live-issue_refresh hash ttl rows now tok user family f =
    rw (select-append (is_live f) rows (_ ∷ []), length-append) (ground arith)

module _ (hash : Text → Text) (ttl : ℕ) (sign : ℕ → Text) where
  -- A new login keeps one token in use for each family, if its family is new.
  pub issue_tokens-OneLive :
      (rows : List Token) (now : ℕ) (family tok : Text) (user : ℕ)
      → OneLive rows
      → live family rows ≡ []
      → OneLive (issue_tokens hash ttl sign rows now family tok user).1
  unfolding issue_tokens
  issue_tokens-OneLive rows now family tok user one new f =
      let added = live-issue_refresh hash ttl rows now tok user family f in
      elim (Bool-cases (text_eq family f)) [
        | inl y ↦
            let same : length (live f rows) ≡ 0 =
              ap (λ k. length (live k rows)) (sym (eq_of_text_eq family f y))
              ∙ ap (λ (r : List Token). length r) new in
            ground (arith, added)
        | inr n ↦ let before = one f in ground (arith, added)
      ]

  live-revoked_family :
      (family f : Text) (rows : List Token)
      → length (live f (map (revoke_family family) rows)) ≤ length (live f rows)
  live-revoked_family family f [] = omega arith
  live-revoked_family family f (t ∷ rows) =
      let rest = live-revoked_family family f rows in ground (arith, rest)

  -- Every outcome of `Refresh` keeps at most one token in use for each family.
  pub refresh-OneLive :
      (rows : List Token) (now : ℕ) (tok given : Text)
      → OneLive rows
      → OneLive (refresh hash ttl sign rows now tok given).1
  unfolding refresh
  refresh-OneLive rows now tok given one = by_row (find (has_hash hash given) rows) refl
    where
      rotated :
          (t : Token)
          → In t rows
          → t.revoked ≡ false
          → OneLive
              (issue_refresh hash ttl (map (revoke_id t.id) rows) now tok t.user_id t.family_id)
      rotated t m r f =
          let added =
            live-issue_refresh hash ttl (map (revoke_id t.id) rows) now tok t.user_id t.family_id
              f in
          elim (Bool-cases (text_eq t.family_id f)) [
            | inl y ↦
                let less = live-revoke_self t.id t rows m refl r in
                let same : length (live t.family_id (map (revoke_id t.id) rows))
                    ≡ length (live f (map (revoke_id t.id) rows)) =
                  ap (λ k. length (live k (map (revoke_id t.id) rows)))
                    (eq_of_text_eq t.family_id f y) in
                let before = one t.family_id in ground (arith, added, less, same, before)
            | inr n ↦
                let before = one f in let less = live-revoke_id f t.id rows in ground (arith, added)
          ]

      by_row :
          (o : Option Token)
          → find (has_hash hash given) rows ≡ o
          → OneLive (refresh_row hash ttl sign rows now tok o).1
      by_row none e = one
      by_row (some t) e = elim (Bool-cases t.revoked) [
        | inl y ↦ rw y (λ f.
            let less = live-revoked_family t.family_id f rows in
            let before = one f in omega (arith, less, before))
        | inr n ↦ elim (Bool-cases (ltb t.expires_at now)) [
          | inl late ↦ rw (n, late) one
          | inr good ↦ rw (n, good) (rotated t (find-some (has_hash hash given) t rows e).0 n)
        ]
      ]

  -- A token that was revoked, used again, is reported as a replay, and its family has no token in
  -- use any more.
  pub refresh-replay :
      (rows : List Token) (now : ℕ) (tok given : Text) (t : Token)
      → find (has_hash hash given) rows ≡ some t
      → t.revoked ≡ true
      → ((refresh hash ttl sign rows now tok given).0 ≡ err replay)
        × (live t.family_id (refresh hash ttl sign rows now tok given).1 ≡ [])
  unfolding refresh refresh_row
  refresh-replay rows now tok given t e r = rw (e, r) (refl, live-revoke_family t.family_id rows)

  has_hash-revoke_id :
      (given : Text) (id : ℕ) (x : Token)
      → has_hash hash given (revoke_id id x) ≡ has_hash hash given x
  has_hash-revoke_id given id x = ground arith

  revoke_self : (t x : Token) → x ≡ t → revoke_id t.id x ≡ record t { revoked = true }
  revoke_self t x e = ap (revoke_id t.id) e ∙ rw (==_refl t.id) refl

  -- After a rotation the old token is found, and revoked.
  find-revoked :
      (given : Text) (t : Token) (rows : List Token)
      → find (has_hash hash given) rows ≡ some t
      → find (has_hash hash given) (map (revoke_id t.id) rows) ≡ some (record t { revoked = true })
  find-revoked given t [] e = cc
  find-revoked given t (x ∷ rows) e = elim (Bool-cases (has_hash hash given x)) [
    | inl y ↦
        let same : x ≡ t = some_injective (rw y at e) in
        rw (has_hash-revoke_id given t.id x, y) (ap some (revoke_self t x same))
    | inr n ↦ rw (has_hash-revoke_id given t.id x, n) (find-revoked given t rows (rw n at e))
  ]

  failed :
      (e : Error) (a : Issued) (p q : List Token)
      → ◌≡◌ {A = Result Issued × List Token} (err e, p) (ok a, q)
      → ⊥
  failed e a p q h = let first : err e ≡ ok a = ap (λ x. x.0) h in cc

  find-issued :
      (given : Text) (t : Token) (rows : List Token) (now : ℕ) (tok : Text)
      → find (has_hash hash given) rows ≡ some t
      → find
          (has_hash hash given)
          (issue_refresh hash ttl (map (revoke_id t.id) rows) now tok t.user_id t.family_id)
        ≡ some (record t { revoked = true })
  unfolding issue_refresh
  find-issued given t rows now tok e =
      find-append (has_hash hash given) (map (revoke_id t.id) rows) _
      ∙ rw (find-revoked given t rows e) refl

  -- A token that was rotated successfully, used a second time, is reported as a replay whatever the
  -- time, and no token of its family is in use any more, the one that the rotation gave included.
  pub refresh-twice :
      (rows later : List Token) (now again : ℕ) (tok other given : Text) (a : Issued)
      → refresh hash ttl sign rows now tok given ≡ (ok a, later)
      → (t : Token) × (find (has_hash hash given) rows ≡ some t)
        × ((refresh hash ttl sign later again other given).0 ≡ err replay)
        × (live t.family_id (refresh hash ttl sign later again other given).1 ≡ [])
  unfolding refresh refresh_row
  refresh-twice rows later now again tok other given a h =
      by_row (find (has_hash hash given) rows) refl
    where
      by_row :
          (o : Option Token)
          → find (has_hash hash given) rows ≡ o
          → (t : Token) × (find (has_hash hash given) rows ≡ some t)
            × ((refresh hash ttl sign later again other given).0 ≡ err replay)
            × (live t.family_id (refresh hash ttl sign later again other given).1 ≡ [])
      by_row none e = absurd (failed invalid_refresh a rows later (rw e at h))
      by_row (some t) e = elim (Bool-cases t.revoked) [
        | inl y ↦ absurd (failed replay a _ later (rw (e, y) at h))
        | inr n ↦ elim (Bool-cases (ltb t.expires_at now)) [
          | inl late ↦ absurd (failed invalid_refresh a rows later (rw (e, n, late) at h))
          | inr good ↦
              let after = ap (λ p. p.1) (rw (e, n, good) at h) in
              let kept =
                subst (λ l. find (has_hash hash given) l ≡ some (record t { revoked = true })) after
                  (find-issued given t rows now tok e) in
              let (said, none_left) =
                refresh-replay later again other given (record t { revoked = true }) kept refl in
              (t, e, said, none_left)
        ]
      ]
