-- ===== src/Text/Decimal.antt =====
-- `strconv.FormatInt(n, 10)` of a number that is not negative, and the number that digits spell.
pub mod Laws
use file_tag_system.Prelude.{
  ℕ, zero, suc, ◌+◌, ◌-◌, ◌*◌, ◌/◌, ◌%◌, List, [], ◌∷◌, Bool, true, false, ltb, not, ◌&&◌,
}
use file_tag_system.Text.{Text}

-- The fuel is one more than the number, and each round divides the number by ten.
emit : ℕ → ℕ → Text → Text
emit zero n out = out
emit (suc fuel) n out = elim (ltb n 10) [
  | true ↦ (b'0' + n % 10) ∷ out
  | false ↦ emit fuel (n / 10) ((b'0' + n % 10) ∷ out)
]

unfoldable pub format_int : ℕ → Text
unfolding emit
format_int n = emit (suc n) n []

-- The number that digits spell behind `n`.
unfoldable pub value : ℕ → Text → ℕ
value n [] = n
value n (c ∷ s) = value (n * 10 + (c - b'0')) s

unfoldable pub is_digit : ℕ → Bool
is_digit c = not (ltb c b'0') && not (ltb b'9' c)
