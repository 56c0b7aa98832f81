-- ===== src/Auth/TwoFactor/Codes.antt =====
-- The backup codes of server/internal/auth/twofa.go.
use file_tag_system.Prelude.{
  ℕ, List, [], ◌∷◌, Bool, true, false, Option, none, some, any, map, ◌≡◌, ◌≢◌, refl, ap, ◌∙◌, arith,
}
use file_tag_system.Text.{Text}
use file_tag_system.Result.{Result, ok, err, invalid_credentials, decrypt_failed, found, ◌>>=◌}
use file_tag_system.Auth.Accounts.{Accounts, BackupCode, TwoFactorRow}
use file_tag_system.Auth.TwoFactor.{
  factor_of, secret_of, secret_row, two_fa_enabled, load_secret, is_open, spend,
  consume_backup_code, verify_secret, verify_two_fa,
}

none_left :
    (hash : Text → Text) (id : ℕ) (code : Text) (cs : List BackupCode)
    → any (is_open hash id code) (map (spend hash id code) cs) ≡ false
none_left hash id code [] = refl
none_left hash id code (c ∷ cs) = ground (arith, none_left hash id code cs)

by_backup :
    (decrypt : Text → Option Text) (totp : Text → Text → Bool) (hash : Text → Text) (acc : Accounts)
    (id : ℕ) (code secret : Text)
    → load_secret decrypt acc id ≡ ok (secret, true)
    → totp code secret ≡ false
    → verify_two_fa decrypt totp hash acc id code
      ≡ (ok (consume_backup_code hash acc id code).0, (consume_backup_code hash acc id code).1)
unfolding verify_two_fa verify_secret
by_backup decrypt totp hash acc id code secret h wrong = rw (h, wrong) refl

-- A code that is no time-based code is accepted at most once: after a check, whatever its result, a
-- second check of the same code fails, as long as it does not become a time-based one.
pub verify_two_fa-once :
    (decrypt : Text → Option Text) (totp : Text → Text → Bool) (hash : Text → Text) (acc : Accounts)
    (id : ℕ) (code secret : Text)
    → load_secret decrypt acc id ≡ ok (secret, true)
    → totp code secret ≡ false
    → (verify_two_fa decrypt totp hash (verify_two_fa decrypt totp hash acc id code).1 id code).0
      ≡ ok false
unfolding consume_backup_code load_secret
verify_two_fa-once decrypt totp hash acc id code secret h wrong =
    let first = by_backup decrypt totp hash acc id code secret h wrong in
    let rest = (consume_backup_code hash acc id code).1 in
    rw first (
      ap (λ p. p.0) (by_backup decrypt totp hash rest id code secret h wrong)
      ∙ ap ok (none_left hash id code acc.backup_codes))

-- The lookup of the second factor fails for other reasons than a wrong password.
pub two_fa_enabled-not_refusal :
    (decrypt : Text → Option Text) (acc : Accounts) (id : ℕ)
    → two_fa_enabled decrypt acc id ≢ err invalid_credentials
unfolding two_fa_enabled load_secret secret_row secret_of
two_fa_enabled-not_refusal decrypt acc id = by_row (factor_of acc id)
  where
    by_secret :
        (t : TwoFactorRow) (o : Option Text)
        → (secret_of decrypt t o >>= λ s. ok s.1) ≢ err invalid_credentials
    by_secret t none h = cc
    by_secret t (some enc) h = by_plain (decrypt enc) h
      where
        told : Text → Result (Text × Bool)
        told plain = ok (plain, t.is_enabled)

        by_plain :
            (o : Option Text)
            → ((found decrypt_failed o >>= told) >>= λ s. ok s.1) ≢ err invalid_credentials
        by_plain none k = cc
        by_plain (some plain) k = cc

    by_row :
        (o : Option TwoFactorRow) → (secret_row decrypt o >>= λ s. ok s.1) ≢ err invalid_credentials
    by_row none h = cc
    by_row (some t) h = by_secret t t.totp_secret h
