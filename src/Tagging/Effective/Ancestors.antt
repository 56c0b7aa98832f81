-- ===== src/Tagging/Effective/Ancestors.antt =====
-- Which paths `AncestorPaths` of server/internal/tags/tagging.go lists.
use file_tag_system.Prelude.{
  ℕ, zero, suc, ◌≤◌, [], ◌∷◌, ◌++◌, false, ◌≡◌, ◌≢◌, ◌↔◌, ◌⊎◌, inl, inr, refl, sym, ap, ◌∙◌, subst,
  arith, Option, none, some, In, length, length-append, take, ◌==◌, ==_iff, Bool-cases,
  if◌then◌else◌,
}
use mathlib.Core.List.{append_assoc}
use file_tag_system.Text.{Text, slash, text_eq}
use file_tag_system.Text.Laws.{eq_of_text_eq}
use file_tag_system.Tagging.Effective.{last_slash, trim_slash, ancestors, ancestor_paths}

abbrev folder : Text → Text
folder b = b ++ slash ∷ []

abbrev NoSlash : Text → Type 0
NoSlash r = (b q : Text) → r ≢ b ++ slash ∷ q

-- What `LastIndex` finds.
data Cut (t : Text) : Option ℕ → Type 0 where
  whole : NoSlash t → Cut t none
  parts : (b r : Text) → t ≡ b ++ slash ∷ r → NoSlash r → Cut t (some (length b))

tail : Text → Text
tail [] = []
tail (c ∷ s) = s

nil-NoSlash : NoSlash []
nil-NoSlash [] q e = cc
nil-NoSlash (c ∷ b) q e = cc

cons-NoSlash : (c : ℕ) (s : Text) → (c == slash) ≡ false → NoSlash s → NoSlash (c ∷ s)
unfolding tail
cons-NoSlash c s k n [] q e = absurd (ground (arith, first c s slash q e))
  where
    first : (a : ℕ) (s : Text) (b : ℕ) (t : Text) → a ∷ s ≡ b ∷ t → a ≡ b
    first a s b t e = cc
cons-NoSlash c s k n (d ∷ b) q e = n b q (ap tail e)

last_slash-Cut : (t : Text) → Cut t (last_slash t)
unfolding last_slash
last_slash-Cut [] = whole nil-NoSlash
last_slash-Cut (c ∷ s) = by_tail (last_slash s) (last_slash-Cut s)
  where
    by_tail :
        (o : Option ℕ)
        → Cut s o
        → Cut
            (c ∷ s)
            (elim o [ some i ↦ some (suc i) | none ↦ if c == slash then some 0 else none ])
    by_tail none (whole n) = elim (Bool-cases (c == slash)) [
      | inl y ↦ rw y (parts [] s (ap (λ d. d ∷ s) ((==_iff c slash).0 y)) n)
      | inr k ↦ rw k (whole (cons-NoSlash c s k n))
    ]
    by_tail (some i) (parts b r e n) = parts (c ∷ b) r (ap (λ z. c ∷ z) e) n

-- Two cuts of one text, the first at the last slash.
cuts :
    (b r b' r' : Text)
    → b ++ slash ∷ r ≡ b' ++ slash ∷ r'
    → NoSlash r
    → (b ≡ b') ⊎ ((q : Text) × (b ≡ b' ++ slash ∷ q))
unfolding tail
cuts [] r [] r' e n = inl refl
cuts [] r (c ∷ b') r' e n = absurd (n b' r' (ap tail e))
cuts (c ∷ b) r [] r' e n = inr (b, cc)
cuts (c ∷ b) r (d ∷ b') r' e n = elim (cuts b r b' r' (ap tail e) n) [
  | inl k ↦ inl cc
  | inr (q, k) ↦ inr (q, cc)
]

take-front : (b r : Text) → take (length b) (b ++ slash ∷ r) ≡ b
take-front [] r = refl
take-front (c ∷ b) r = ap (λ z. c ∷ z) (take-front b r)

take-folder : (b r : Text) → take (suc (length b)) (b ++ slash ∷ r) ≡ folder b
take-folder [] r = refl
take-folder (c ∷ b) r = ap (λ z. c ∷ z) (take-folder b r)

-- A folder on the way of a text: a part of it, from its start to a slash.
abbrev OnWay : Text → Text → Type 0
OnWay t x = (b : Text) × (r : Text) × (t ≡ b ++ slash ∷ r) × (x ≡ folder b)

OnWay-longer : (b r x : Text) → OnWay b x → OnWay (b ++ slash ∷ r) x
OnWay-longer b r x (c, q, e, k) =
    (c, q ++ slash ∷ r, rw e (append_assoc c (slash ∷ q) (slash ∷ r)), k)

-- The loop lists the folders on the way, where none of them is the path itself.
ancestors_iff :
    (n : ℕ) (path t x : Text)
    → length t ≤ n
    → ((y : Text) → OnWay t y → y ≢ path)
    → In x (ancestors n path t) ↔ OnWay t x
unfolding ancestors
ancestors_iff zero path [] x l other =
    ((λ m. elim m [ ]), λ (b, r, e, f). absurd (nil-NoSlash b r e))
ancestors_iff zero path (c ∷ t) x l other = absurd (omega arith)
ancestors_iff (suc n) path t x l other =
    by_cut (last_slash t) (last_slash-Cut t) (ancestors_iff n path)
  where
    differs : (b : Text) → folder b ≢ path → text_eq (folder b) path ≡ false
    differs b d = elim (Bool-cases (text_eq (folder b) path)) [
      | inl y ↦ absurd (d (eq_of_text_eq (folder b) path y))
      | inr n ↦ n
    ]

    by_cut :
        (o : Option ℕ)
        → Cut t o
        → ((u y : Text)
            → length u ≤ n
            → ((z : Text) → OnWay u z → z ≢ path)
            → In y (ancestors n path u) ↔ OnWay u y)
        → In x (elim o [
          | none ↦ []
          | some i ↦
              let dir = take (suc i) t in
              let rest = ancestors n path (take i t) in
              if text_eq dir path then rest else dir ∷ rest
        ])
          ↔ OnWay t x
    by_cut none (whole k) below = ((λ m. elim m [ ]), λ (b, r, e, f). absurd (k b r e))
    by_cut (some i) (parts b r e k) below =
        let whole_dir : take (suc (length b)) t ≡ folder b = rw e (take-folder b r) in
        let before : take (length b) t ≡ b = rw e (take-front b r) in
        let way : (y : Text) → OnWay b y → OnWay t y =
          λ y w. subst (λ u. OnWay u y) (sym e) (OnWay-longer b r y w) in
        let shorter : length b ≤ n = omega (arith, ap length e, length-append b (slash ∷ r), l) in
        let ih = below b x shorter (λ y w. other y (way y w)) in
        rw (whole_dir, before, differs b (other (folder b) (b, r, e, refl)))
          (
            (λ m. elim m [ inl q ↦ (b, r, e, q) | inr m' ↦ way x (ih.0 m') ]),
            λ (b', r', e', f). elim (cuts b r b' r' (sym e ∙ e') k) [
              | inl same ↦ inl (f ∙ ap folder (sym same))
              | inr (q, g) ↦ inr (ih.1 (b', q, g, f))
            ],
          )

-- What `TrimSuffix` leaves: the text without its last slash, or the text, which then has no slash at
-- its end.
trim_slash-cases :
    (t : Text) → (t ≡ folder (trim_slash t)) ⊎ ((trim_slash t ≡ t) × ((b : Text) → t ≢ folder b))
unfolding trim_slash
trim_slash-cases [] = inr (refl, λ b. nil-NoSlash b [])
trim_slash-cases (c ∷ []) = elim (Bool-cases (c == slash)) [
  | inl y ↦ rw y (inl (ap (λ z. z ∷ []) ((==_iff c slash).0 y)))
  | inr k ↦ rw k (inr (refl, λ b. cons-NoSlash c [] k nil-NoSlash b []))
]
trim_slash-cases (c ∷ d ∷ s) = elim (trim_slash-cases (d ∷ s)) [
  | inl e ↦ inl (ap (λ z. c ∷ z) e)
  | inr (e, n) ↦ inr (ap (λ z. c ∷ z) e, no_folder c d s n)
]
  where
    no_folder :
        (c d : ℕ) (s : Text) → ((b : Text) → d ∷ s ≢ folder b) → (b : Text) → c ∷ d ∷ s ≢ folder b
    no_folder c d s n [] e = cc
    no_folder c d s n (a ∷ b) e = n b (unfold tail in ap tail e)

trim_slash-length : (t : Text) → length (trim_slash t) ≤ length t
trim_slash-length t = elim (trim_slash-cases t) [
  | inl e ↦ omega (arith, ap length e, length-append (trim_slash t) (slash ∷ []))
  | inr (e, n) ↦ omega (arith, ap length e)
]

way_other : (t y : Text) → OnWay (trim_slash t) y → y ≢ t
way_other t y (b, r, e, f) same = elim (trim_slash-cases t) [
  | inl k ↦ omega (
    arith,
    ap length k,
    ap length e,
    ap length f,
    ap length same,
    length-append (trim_slash t) (slash ∷ []),
    length-append b (slash ∷ r),
    length-append b (slash ∷ []),
  )
  | inr (k, n) ↦ n b (sym same ∙ f)
]

-- A part from the start that leaves something, without the last slash of the text.
shorten : (t b r : Text) → folder t ≡ b ++ slash ∷ r → r ≢ [] → (q : Text) × (t ≡ b ++ slash ∷ q)
unfolding tail
shorten [] [] r e n = absurd (n (sym (ap tail e)))
shorten [] (c ∷ b) r e n = absurd (nil-NoSlash b r (ap tail e))
shorten (c ∷ t) [] r e n = (t, cc)
shorten (c ∷ t) (d ∷ b) r e n = let (q, k) = shorten t b r (ap tail e) n in (q, cc)

-- A folder above a path: a proper part of it, from its start to a slash.
abbrev pub IsAbove : Text → Text → Type 0
IsAbove path x =
    (b : Text) × (r : Text) × (r ≢ []) × (path ≡ b ++ slash ∷ r) × (x ≡ b ++ slash ∷ [])

append-slash : (q : Text) → q ++ slash ∷ [] ≢ []
append-slash [] e = cc
append-slash (c ∷ q) e = cc

-- The folders on the way of the path without its last slash are those above the path.
OnWay-iff_IsAbove : (path x : Text) → OnWay (trim_slash path) x ↔ IsAbove path x
OnWay-iff_IsAbove path x = elim (trim_slash-cases path) [
  | inl e ↦ (
    (λ (b, r, k, f). (
      b,
      folder r,
      append-slash r,
      e ∙ ap folder k ∙ append_assoc b (slash ∷ r) (slash ∷ []),
      f,
    )),
    λ (b, r, n, k, f). let (q, g) = shorten (trim_slash path) b r (sym e ∙ k) n in (b, q, g, f),
  )
  | inr (e, n) ↦ (
    (λ (b, r, k, f). (b, r, (λ z. n b (sym e ∙ k ∙ ap (λ u. b ++ slash ∷ u) z)), sym e ∙ k, f)),
    λ (b, r, m, k, f). (b, r, e ∙ k, f),
  )
]

-- `AncestorPaths` lists the path itself and the folders above it, that is its proper parts up to a
-- slash, and nothing for the empty path.
pub ancestor_paths-iff_IsAbove :
    (path x : Text) → In x (ancestor_paths path) ↔ ((path ≢ []) × ((x ≡ path) ⊎ IsAbove path x))
unfolding ancestor_paths
ancestor_paths-iff_IsAbove [] x = ((λ m. elim m [ ]), λ (n, k). absurd (n refl))
ancestor_paths-iff_IsAbove (c ∷ s) x =
    let loop =
      ancestors_iff (suc (length s)) (c ∷ s) (trim_slash (c ∷ s)) x (trim_slash-length (c ∷ s))
        (way_other (c ∷ s)) in
    let above = OnWay-iff_IsAbove (c ∷ s) x in
    (
      (λ m. ((λ e. cc), elim m [ inl e ↦ inl e | inr k ↦ inr (above.0 (loop.0 k)) ])),
      λ (n, k). elim k [ inl e ↦ inl e | inr a ↦ inr (loop.1 (above.1 a)) ],
    )
