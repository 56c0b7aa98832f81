-- ===== src/Api/Query/Numbers.antt =====
-- `parseID2` of server/internal/api/handlers_files.go on decimal numbers.
use file_tag_system.Prelude.{
  ℕ, [], ◌∷◌, false, not, ltb, ◌≡◌, refl, subst, ap, sym, arith, none, some, any, if◌then◌else◌,
}
use file_tag_system.Text.{Text}
use file_tag_system.Text.Decimal.{format_int, value, is_digit}
use file_tag_system.Text.Decimal.Laws.{
  AllDigits, format_int-cons, format_int-AllDigits, value-format_int,
}
use file_tag_system.Api.Query.{digits, parse_id2}

-- The first number that does not fit in an `int64`.
abbrev pub too_large : ℕ
too_large = 0x8000000000000000

no_other : (s : Text) → AllDigits s → any (λ d. not (is_digit d)) s ≡ false
unfolding is_digit
no_other [] h = refl
no_other (c ∷ s) (low, high, rest) = ground (arith, no_other s rest)

parse_id2-AllDigits :
    (c : ℕ) (s : Text)
    → AllDigits (c ∷ s)
    → parse_id2 (c ∷ s) ≡ (if ltb (value 0 (c ∷ s)) too_large then some (value 0 (c ∷ s)) else none)
unfolding parse_id2 digits
parse_id2-AllDigits c s h =
    let (low, high, rest) = h in let plain = no_other (c ∷ s) h in rw plain (ground (arith, low))

-- `parseID2` reads every decimal number that fits in an `int64` as it was written, and refuses those
-- that do not fit.
pub parse_id2-format_int :
    (n : ℕ) → parse_id2 (format_int n) ≡ (if ltb n too_large then some n else none)
parse_id2-format_int n =
    let (c, s, e) = format_int-cons n in
    let read = parse_id2-AllDigits c s (subst AllDigits e (format_int-AllDigits n)) in
    rw (e, read, ap (value 0) (sym e), value-format_int n) refl
