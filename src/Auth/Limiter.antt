-- ===== src/Auth/Limiter.antt =====
-- server/internal/auth/limiter.go: the failure counter with a lockout. The two maps are functions;
-- a missing counter reads 0, as a Go map's does. Time is a number, given to each call.
pub mod Laws
use file_tag_system.Prelude.{
  ℕ, suc, ◌+◌, Bool, true, false, ◌&&◌, not, ltb, leb, Option, none, some, if◌then◌else◌,
}
use file_tag_system.Text.{Text, text_eq}

pub record Limiter : Type 0 where
  pub fails : Text → ℕ
  pub until : Text → Option ℕ
  pub max : ℕ
  pub lockout : ℕ

abbrev pub store {ℓ} : {A : Type ℓ} → Text → A → (Text → A) → Text → A
store key a m k = if text_eq key k then a else m k

-- `NewLimiter`
unfoldable pub new_limiter : ℕ → ℕ → Limiter
new_limiter max lockout = record { fails = λ k. 0; until = λ k. none; max = max; lockout = lockout }

-- `Reset`, and the two `delete` of `Allowed`.
unfoldable pub reset : Text → Limiter → Limiter
reset key l = record l { fails = store key 0 l.fails; until = store key none l.until }

allowed_by : ℕ → Text → Limiter → Option ℕ → Bool × Limiter
unfolding reset
allowed_by now key l none = (true, l)
allowed_by now key l (some t) = if ltb now t then (false, l) else (true, reset key l)

-- `Allowed`
unfoldable pub allowed : ℕ → Text → Limiter → Bool × Limiter
unfolding allowed_by
allowed now key l = allowed_by now key l (l.until key)

-- `Fail`
unfoldable pub fail : ℕ → Text → Limiter → Limiter
fail now key l =
    let n = suc (l.fails key) in
    record l {
      fails = store key n l.fails;
      until =
          if ltb 0 l.max && leb l.max n
          then store key (some (now + l.lockout)) l.until
          else l.until;
    }
