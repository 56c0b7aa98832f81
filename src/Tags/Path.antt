-- ===== src/Tags/Path.antt =====
-- The texts of materialized paths (server/internal/tags/tags.go): digits and slashes.
use file_tag_system.Prelude.{
  ℕ, ◌≤◌, ◌<◌, [], ◌∷◌, ◌++◌, true, ◌≡◌, ◌⊎◌, inl, inr, refl, sym, ap, ◌∙◌, arith, drop, length,
  length-append, drop-append,
}
use file_tag_system.Text.{Text, slash, len, starts_with}
use file_tag_system.Text.Laws.{starts_with-append, append_cancel, starts_with-elim}
use file_tag_system.Text.Decimal.{format_int}
use file_tag_system.Text.Decimal.Laws.{AllDigits, format_int-AllDigits, format_int_injective}
use file_tag_system.Text.Like.{like_prefix}
use file_tag_system.Text.Like.Laws.{Exact, like_prefix-Exact}
use file_tag_system.Tags.{segment}

abbrev pub Ends : Text → Type 0
Ends [] = ⊥
Ends (c ∷ []) = c ≡ slash
Ends (c ∷ d ∷ s) = Ends (d ∷ s)

-- '/' is 47 and the digits are 48 to 57.
abbrev pub PathText : Text → Type 0
PathText [] = Unit
PathText (c ∷ s) = (47 ≤ c) × (c ≤ 57) × PathText s

pub Ends-append : (s t : Text) → Ends t → Ends (s ++ t)
Ends-append [] t h = h
Ends-append (c ∷ []) [] h = elim h [ ]
Ends-append (c ∷ []) (d ∷ t) h = h
Ends-append (c ∷ d ∷ s) t h = Ends-append (d ∷ s) t h

pub Ends-length : (s : Text) → Ends s → 0 < length s
Ends-length [] h = absurd h
Ends-length (c ∷ s) h = omega arith

Ends-slash : (s : Text) → Ends (s ++ slash ∷ [])
Ends-slash s = Ends-append s (slash ∷ []) refl

pub Ends-segment : (i : ℕ) → Ends (segment i)
unfolding segment
Ends-segment i = Ends-slash (format_int i)

pub PathText-append : (s t : Text) → PathText s → PathText t → PathText (s ++ t)
PathText-append [] t h k = k
PathText-append (c ∷ s) t h k = (h.0, h.1, PathText-append s t h.2 k)

PathText-digits : (s : Text) → AllDigits s → PathText s
PathText-digits [] h = tt
PathText-digits (c ∷ s) h = (omega arith, h.1, PathText-digits s h.2)

pub PathText-segment : (i : ℕ) → PathText (segment i)
unfolding segment
PathText-segment i =
    PathText-append (format_int i) (slash ∷ []) (PathText-digits _ (format_int-AllDigits i))
      (omega arith, omega arith, tt)

pub Exact-PathText : (s : Text) → PathText s → Exact s
Exact-PathText [] h = tt
Exact-PathText (c ∷ s) h =
    (omega (arith, h.0), omega (arith, h.1), inl (omega (arith, h.1)), Exact-PathText s h.2)

-- On materialized paths `LIKE` tests for a prefix.
pub like_prefix-PathText : (p s : Text) → PathText p → like_prefix p s ≡ starts_with p s
like_prefix-PathText p s h = like_prefix-Exact p s (Exact-PathText p h)

len-PathText : (s : Text) → PathText s → len s ≡ length s
unfolding len
len-PathText [] h = refl
len-PathText (c ∷ s) h = ground (arith, len-PathText s h.2, h.1)

-- `substr(path, len(oldPath)+1)` of a path under the old path is what stands behind it.
pub drop-len : (p s : Text) → PathText p → drop (len p) (p ++ s) ≡ s
drop-len p s h = rw (len-PathText p h) (drop-append p s)

under_digits :
    (old f : Text)
    → AllDigits f
    → Ends old
    → starts_with old (f ++ slash ∷ []) ≡ true
    → old ≡ f ++ slash ∷ []
unfolding starts_with
under_digits [] f h e p = absurd e
under_digits (c ∷ []) [] h e p = ground arith
under_digits (c ∷ d ∷ old) [] h e p = absurd (ground arith)
under_digits (c ∷ []) (x ∷ f) h e p = absurd (ground (arith, h.0, h.1))
under_digits (c ∷ d ∷ old) (x ∷ f) h e p =
    let ih = under_digits (d ∷ old) f h.2 e (ground arith) in let same : c ≡ x = ground arith in cc

under :
    (old b f : Text)
    → AllDigits f
    → Ends old
    → starts_with old (b ++ (f ++ slash ∷ [])) ≡ true
    → (starts_with old b ≡ true) ⊎ (old ≡ b ++ (f ++ slash ∷ []))
unfolding starts_with
under old [] f h e p = inr (under_digits old f h e p)
under [] (x ∷ b) f h e p = absurd e
under (c ∷ []) (x ∷ b) f h e p = inl (ground arith)
under (c ∷ d ∷ old) (x ∷ b) f h e p =
    let same : c ≡ x = ground arith in
    elim (under (d ∷ old) b f h e (ground arith)) [ inl q ↦ inl (ground arith) | inr q ↦ inr (cc) ]

-- What begins a child's path begins its parent's path, or is the child's path.
pub under_segment :
    (old b : Text) (i : ℕ)
    → Ends old
    → starts_with old (b ++ segment i) ≡ true
    → (starts_with old b ≡ true) ⊎ (old ≡ b ++ segment i)
unfolding segment
under_segment old b i e p = under old b (format_int i) (format_int-AllDigits i) e p

pub segment-length : (i : ℕ) → 0 < length (segment i)
unfolding segment
segment-length i = omega (arith, length-append (format_int i) (slash ∷ []))

pub segment_injective : (i j : ℕ) → segment i ≡ segment j → i ≡ j
unfolding segment
segment_injective i j e = format_int_injective i j (digits_same (format_int i) (format_int j) e)
  where
    digits_same : (s t : Text) → s ++ slash ∷ [] ≡ t ++ slash ∷ [] → s ≡ t
    digits_same [] [] e = refl
    digits_same [] (d ∷ []) e = cc
    digits_same [] (d ∷ x ∷ t) e = cc
    digits_same (c ∷ []) [] e = cc
    digits_same (c ∷ x ∷ s) [] e = cc
    digits_same (c ∷ s) (d ∷ t) e =
        let ih = digits_same s t (ground arith) in let same : c ≡ d = ground arith in cc

pub prefix_length : (p s : Text) → starts_with p s ≡ true → length p ≤ length s
prefix_length p s h =
    let (r, e) = starts_with-elim p s h in omega (arith, length-append p r, ap length e)

prefix_antisymm : (p s : Text) → starts_with p s ≡ true → length s ≤ length p → p ≡ s
unfolding starts_with
prefix_antisymm [] [] h l = refl
prefix_antisymm [] (d ∷ s) h l = absurd (omega arith)
prefix_antisymm (c ∷ p) [] h l = absurd (ground arith)
prefix_antisymm (c ∷ p) (d ∷ s) h l =
    let ih = prefix_antisymm p s (ground arith) (omega arith) in
    let same : c ≡ d = ground arith in cc

-- The last segment of a path determines its parent's path and its number.
pub last_segment :
    (b c : Text) (i j : ℕ) → Ends b → Ends c → b ++ segment i ≡ c ++ segment j → i ≡ j
last_segment b c i j eb ec e =
    elim (under_segment c b i ec (rw e (starts_with-append c (segment j)))) [
      | inr q ↦ absurd (
          omega (
            arith,
            ap length e,
            ap length q,
            length-append b (segment i),
            length-append c (segment j),
            segment-length j,
          ))
      | inl cb ↦ elim (under_segment b c j eb (rw (← e) (starts_with-append b (segment i)))) [
        | inr q ↦ absurd (
            omega (
              arith,
              ap length e,
              ap length q,
              length-append b (segment i),
              length-append c (segment j),
              segment-length i,
            ))
        | inl bc ↦
            let same : b ≡ c = prefix_antisymm b c bc (prefix_length c b cb) in
            segment_injective i j
              (append_cancel b (segment i) (segment j) (e ∙ ap (λ t. t ++ segment j) (sym same)))
      ]
    ]
