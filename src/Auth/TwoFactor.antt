-- ===== src/Auth/TwoFactor.antt =====
-- server/internal/auth/twofa.go: the second factor. The check of a time-based code, the encryption
-- of secrets, the hash and the random codes come from libraries and are arguments. Times and the
-- text of a URL are left out.
pub mod Codes
use file_tag_system.Prelude.{
  ℕ, suc, List, [], ◌∷◌, ◌++◌, Bool, true, false, ◌&&◌, ◌==◌, not, ltb, Option, none, some, any,
  find, select, map, if◌then◌else◌,
}
use file_tag_system.Text.{Text, text_eq}
use file_tag_system.Result.{
  Result, ok, err, invalid_credentials, no_setup, decrypt_failed, constraint, found, guard, ◌>>=◌,
  ◌>>◌,
}
use file_tag_system.Auth.Accounts.{Accounts, TwoFactorRow, BackupCode, has_user}

abbrev pub factor_of : Accounts → ℕ → Option TwoFactorRow
factor_of acc id = find (λ (t : TwoFactorRow). t.user_id == id) acc.two_factors

-- `Setup2FA`, with the secret that the library made, as it was encrypted.
unfoldable pub setup_two_fa : Accounts → ℕ → Text → Result Accounts
setup_two_fa acc id enc =
    if any (λ (t : TwoFactorRow). t.user_id == id) acc.two_factors
    then ok (record acc {
      two_factors =
          map
            (λ (t : TwoFactorRow).
              if t.user_id == id
              then record t { totp_secret = some enc; is_enabled = false }
              else t)
            acc.two_factors;
    })
    else (do
      guard (has_user acc id) constraint
      ok (record acc {
        two_factors =
            acc.two_factors
            ++ record { user_id = id; totp_secret = some enc; is_enabled = false } ∷ [];
      }))

secret_of : (Text → Option Text) → TwoFactorRow → Option Text → Result (Text × Bool)
secret_of decrypt t none = ok ([], t.is_enabled)
secret_of decrypt t (some enc) = do
  plain ← found decrypt_failed (decrypt enc)
  ok (plain, t.is_enabled)

secret_row : (Text → Option Text) → Option TwoFactorRow → Result (Text × Bool)
unfolding secret_of
secret_row decrypt none = ok ([], false)
secret_row decrypt (some t) = secret_of decrypt t t.totp_secret

-- `loadSecret`
unfoldable pub load_secret : (Text → Option Text) → Accounts → ℕ → Result (Text × Bool)
unfolding secret_row
load_secret decrypt acc id = secret_row decrypt (factor_of acc id)

-- `TwoFAEnabled`
unfoldable pub two_fa_enabled : (Text → Option Text) → Accounts → ℕ → Result Bool
unfolding load_secret
two_fa_enabled decrypt acc id = do s ← load_secret decrypt acc id; ok s.1

is_blank : Text → Bool
is_blank [] = true
is_blank (c ∷ t) = false

-- `Enable2FA`, with the codes that it draws.
unfoldable pub enable_two_fa :
    (Text → Option Text)
    → (Text → Text → Bool)
    → (Text → Text)
    → Accounts
    → ℕ
    → Text
    → List Text
    → Result Accounts
unfolding load_secret is_blank
enable_two_fa decrypt totp hash acc id code codes = do
  s ← load_secret decrypt acc id
  guard (not (is_blank s.0)) no_setup
  guard (totp code s.0) invalid_credentials
  ok (record acc {
    two_factors =
        map (λ (t : TwoFactorRow). if t.user_id == id then record t { is_enabled = true } else t)
          acc.two_factors;
    backup_codes =
        select (λ (c : BackupCode). not (c.user_id == id)) acc.backup_codes
        ++ map (λ c. record { user_id = id; code_hash = hash c; used = false }) codes;
  })

-- `Disable2FA`
unfoldable pub disable_two_fa : Accounts → ℕ → Accounts
disable_two_fa acc id = record acc {
  two_factors = select (λ (t : TwoFactorRow). not (t.user_id == id)) acc.two_factors;
  backup_codes = select (λ (c : BackupCode). not (c.user_id == id)) acc.backup_codes;
}

abbrev pub is_open : (Text → Text) → ℕ → Text → BackupCode → Bool
is_open hash id code c = c.user_id == id && text_eq c.code_hash (hash code) && not c.used

abbrev pub spend : (Text → Text) → ℕ → Text → BackupCode → BackupCode
spend hash id code c = if is_open hash id code c then record c { used = true } else c

-- `consumeBackupCode`
unfoldable pub consume_backup_code : (Text → Text) → Accounts → ℕ → Text → Bool × Accounts
consume_backup_code hash acc id code = (
  any (is_open hash id code) acc.backup_codes,
  record acc { backup_codes = map (spend hash id code) acc.backup_codes },
)

verify_secret :
    (Text → Text → Bool)
    → (Text → Text)
    → Accounts
    → ℕ
    → Text
    → Result (Text × Bool)
    → Result Bool × Accounts
unfolding consume_backup_code
verify_secret totp hash acc id code (err e) = (err e, acc)
verify_secret totp hash acc id code (ok (secret, enabled)) =
    if not enabled
    then (ok false, acc)
    else if totp code secret
    then (ok true, acc)
    else (let (fits, acc') = consume_backup_code hash acc id code in (ok fits, acc'))

-- `VerifyTwoFA`
unfoldable pub verify_two_fa :
    (Text → Option Text)
    → (Text → Text → Bool)
    → (Text → Text)
    → Accounts
    → ℕ
    → Text
    → Result Bool × Accounts
unfolding verify_secret load_secret
verify_two_fa decrypt totp hash acc id code =
    verify_secret totp hash acc id code (load_secret decrypt acc id)
