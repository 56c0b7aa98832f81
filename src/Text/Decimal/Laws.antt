-- ===== src/Text/Decimal/Laws.antt =====
-- Lemmas on printed numbers.
use file_tag_system.Prelude.{
  ℕ, zero, suc, ◌+◌, ◌/◌, ◌%◌, ◌≤◌, ◌<◌, [], ◌∷◌, ◌≡◌, refl, ap, ◌∙◌, arith, ltb, Bool-cases, inl,
  inr,
}
use file_tag_system.Text.{Text, codes}
use file_tag_system.Text.Decimal.{emit, format_int, value}

abbrev pub AllDigits : Text → Type 0
AllDigits [] = Unit
AllDigits (c ∷ s) = (b'0' ≤ c) × (c ≤ b'9') × AllDigits s

value-emit : (fuel n : ℕ) (out : Text) → n < fuel → value 0 (emit fuel n out) ≡ value n out
unfolding emit value
value-emit zero n out h = absurd (omega arith)
value-emit (suc fuel) n out h = elim (Bool-cases (ltb n 10)) [
  | inl y ↦ rw (y, value) (ap (λ m. value m out) (ground arith))
  | inr n' ↦
      rw (n', value)
        (value-emit fuel (n / 10) ((b'0' + n % 10) ∷ out) (ground arith)
          ∙ ap (λ m. value m out) (omega arith))
]

-- The digits of a number spell it.
pub value-format_int : (n : ℕ) → value 0 (format_int n) ≡ n
unfolding format_int
value-format_int n = value-emit (suc n) n [] (omega arith) ∙ (unfold value in refl)

pub format_int_injective : (m n : ℕ) → format_int m ≡ format_int n → m ≡ n
format_int_injective m n e = cc (value-format_int m, value-format_int n)

emit-AllDigits : (fuel n : ℕ) (out : Text) → AllDigits out → AllDigits (emit fuel n out)
unfolding emit
emit-AllDigits zero n out h = h
emit-AllDigits (suc fuel) n out h = elim (Bool-cases (ltb n 10)) [
  | inl y ↦ rw (y, AllDigits) (omega arith, omega arith, h)
  | inr k ↦
      rw (k, AllDigits)
        (emit-AllDigits fuel (n / 10) ((b'0' + n % 10) ∷ out) (omega arith, omega arith, h))
]

pub format_int-AllDigits : (n : ℕ) → AllDigits (format_int n)
unfolding format_int
format_int-AllDigits n = emit-AllDigits (suc n) n [] tt

format_int_test : format_int 1205 ≡ codes "1205"
unfolding format_int
format_int_test = refl

emit-cons : (fuel n c : ℕ) (out : Text) → (d : ℕ) × (s : Text) × (emit fuel n (c ∷ out) ≡ d ∷ s)
unfolding emit
emit-cons zero n c out = (c, out, refl)
emit-cons (suc fuel) n c out = elim (Bool-cases (ltb n 10)) [
  | inl y ↦ rw (y, emit) (b'0' + n % 10, c ∷ out, refl)
  | inr k ↦ rw (k, emit) (emit-cons fuel (n / 10) (b'0' + n % 10) (c ∷ out))
]

-- A printed number has a first digit.
pub format_int-cons : (n : ℕ) → (d : ℕ) × (s : Text) × (format_int n ≡ d ∷ s)
unfolding format_int emit
format_int-cons n = elim (Bool-cases (ltb n 10)) [
  | inl y ↦ rw (y, format_int, emit) (b'0' + n % 10, [], refl)
  | inr k ↦ rw (k, format_int, emit) (emit-cons n (n / 10) (b'0' + n % 10) [])
]
