-- ===== src/Text/Laws.antt =====
-- Equality and prefixes of texts.
use mathlib.Core.List.{reverse, reverse-append, reverse-reverse}
use file_tag_system.Prelude.{
  ◌∙◌, [], ◌∷◌, ◌++◌, true, false, ◌≡◌, ◌≢◌, Bool-cases, inl, inr, refl, sym, ap, ◌↔◌, arith,
}
use file_tag_system.Text.{Text, text_eq, starts_with}

pub eq_of_text_eq : (s t : Text) → text_eq s t ≡ true → s ≡ t
unfolding text_eq
eq_of_text_eq [] [] h = refl
eq_of_text_eq [] (b ∷ t) h = cc
eq_of_text_eq (a ∷ s) [] h = cc
eq_of_text_eq (a ∷ s) (b ∷ t) h = ground (arith, eq_of_text_eq s t)

pub text_eq-false : (s t : Text) → s ≢ t → text_eq s t ≡ false
text_eq-false s t apart = elim (Bool-cases (text_eq s t)) [
  | inl y ↦ absurd (apart (eq_of_text_eq s t y))
  | inr n ↦ n
]

pub text_eq_refl : (s : Text) → text_eq s s ≡ true
unfolding text_eq
text_eq_refl [] = refl
text_eq_refl (a ∷ s) = ground (arith, text_eq_refl s)

pub text_eq_iff : (s t : Text) → (text_eq s t ≡ true) ↔ (s ≡ t)
text_eq_iff s t = (eq_of_text_eq s t, λ e. rw e (text_eq_refl t))

pub starts_with-append : (p s : Text) → starts_with p (p ++ s) ≡ true
unfolding starts_with
starts_with-append [] s = refl
starts_with-append (a ∷ p) s = ground (arith, starts_with-append p s)

pub starts_with-elim : (p s : Text) → starts_with p s ≡ true → (r : Text) × (s ≡ p ++ r)
unfolding starts_with
starts_with-elim [] s h = (s, refl)
starts_with-elim (a ∷ p) [] h = absurd (ground arith)
starts_with-elim (a ∷ p) (b ∷ s) h =
    let (r, e) = starts_with-elim p s (ground arith) in let f : a ≡ b = ground arith in (r, cc)

pub starts_with-append_right :
    (p s t : Text) → starts_with p s ≡ true → starts_with p (s ++ t) ≡ true
unfolding starts_with
starts_with-append_right [] s t h = refl
starts_with-append_right (a ∷ p) [] t h = absurd (ground arith)
starts_with-append_right (a ∷ p) (b ∷ s) t h = ground (arith, starts_with-append_right p s t)

pub starts_with_trans :
    (p q s : Text) → starts_with p q ≡ true → starts_with q s ≡ true → starts_with p s ≡ true
unfolding starts_with
starts_with_trans [] q s h k = refl
starts_with_trans (a ∷ p) [] s h k = absurd (ground arith)
starts_with_trans (a ∷ p) (b ∷ q) [] h k = absurd (ground arith)
starts_with_trans (a ∷ p) (b ∷ q) (c ∷ s) h k = ground (arith, starts_with_trans p q s)

pub append_cancel : (p s t : Text) → p ++ s ≡ p ++ t → s ≡ t
append_cancel [] s t e = e
append_cancel (a ∷ p) s t e = append_cancel p s t (ground arith)

pub append_cancel_right : (s t r : Text) → s ++ r ≡ t ++ r → s ≡ t
append_cancel_right s t r e = reverse_injective s t (
    append_cancel (reverse r) (reverse s) (reverse t)
      (sym (reverse-append s r) ∙ ap reverse e ∙ reverse-append t r))
  where
    reverse_injective : (s t : Text) → reverse s ≡ reverse t → s ≡ t
    reverse_injective s t e = sym (reverse-reverse s) ∙ ap reverse e ∙ reverse-reverse t
