-- ===== src/Search/Texts/Named.antt =====
-- `SearchValues` of server/internal/search/search.go for short keywords: what it finds.
use file_tag_system.Prelude.{
  ℕ, zero, suc, ◌<◌, List, [], ◌∷◌, Bool, true, false, ◌&&◌, leb, Option, any, all, select, take,
  length, In, In-select, In-of_select, ◌≡◌, ◌↔◌, ◌⊎◌, inl, inr, refl, sym, ap, subst, arith,
  Bool-cases,
}
use file_tag_system.Text.{Text}
use file_tag_system.Text.Order.{In-sort_by}
use file_tag_system.Text.Like.Escaped.{Contains, like_escaped-Contains}
use file_tag_system.Db.{FieldValue, Alias, Db}
use file_tag_system.Search.Texts.{
  value_limit, of_type, is_alias_named, is_named, search_values_like, search_values,
}

-- The value itself or one of its aliases has the keyword in it.
abbrev pub Named : Db → Text → FieldValue → Type 0
Named db keyword v =
    Contains keyword v.value
    ⊎ ((a : Alias) × In a db.aliases × (a.field_value_id ≡ v.id) × Contains keyword a.alias)

module _ {ℓ} {A : Type ℓ} where
  In-take : (n : ℕ) (xs : List A) (a : A) → In a (take n xs) → In a xs
  In-take zero xs a m = elim m [ ]
  In-take (suc n) [] a m = elim m [ ]
  In-take (suc n) (x ∷ xs) a (inl e) = inl e
  In-take (suc n) (x ∷ xs) a (inr m) = inr (In-take n xs a m)

  take-short : (n : ℕ) (xs : List A) → length (take n xs) < n → take n xs ≡ xs
  take-short zero xs h = absurd (omega (arith, h))
  take-short (suc n) [] h = refl
  take-short (suc n) (x ∷ xs) h = ap (◌∷◌ x) (take-short n xs (omega (arith, h)))

  any-In : (p : A → Bool) (xs : List A) → any p xs ≡ true → (a : A) × In a xs × (p a ≡ true)
  any-In p [] h = cc
  any-In p (x ∷ xs) h = elim (Bool-cases (p x)) [
    | inl y ↦ (x, inl refl, y)
    | inr n ↦ let (a, m, t) = any-In p xs (rw n at h) in (a, inr m, t)
  ]

  any_of-In : (p : A → Bool) (xs : List A) (a : A) → In a xs → p a ≡ true → any p xs ≡ true
  any_of-In p [] a m t = elim m [ ]
  any_of-In p (x ∷ xs) a (inl e) t = rw (← e, t) refl
  any_of-In p (x ∷ xs) a (inr m) t = ground (arith, any_of-In p xs a m t)

is_named-Named :
    (db : Db) (keyword : Text) (v : FieldValue)
    → (is_named db keyword v ≡ true) ↔ Named db keyword v
is_named-Named db keyword v = (there, back)
  where
    there : is_named db keyword v ≡ true → Named db keyword v
    there h = elim (Bool-cases (any (is_alias_named keyword v) db.aliases)) [
      | inl y ↦
          let (a, m, t) = any-In (is_alias_named keyword v) db.aliases y in
          inr (a, m, ground arith, (like_escaped-Contains keyword a.alias).0 (ground arith))
      | inr n ↦ inl ((like_escaped-Contains keyword v.value).0 (ground arith))
    ]

    back : Named db keyword v → is_named db keyword v ≡ true
    back (inl c) = let own = (like_escaped-Contains keyword v.value).1 c in ground arith
    back (inr (a, m, e, c)) =
        let its = (like_escaped-Contains keyword a.alias).1 c in
        let one = any_of-In (is_alias_named keyword v) db.aliases a m (ground arith) in ground arith

-- For a keyword of at most two characters that are not all white space: `SearchValues` finds only
-- values of the type asked for, if one is, that have the keyword in their text or in an alias, where
-- the case of letters of ASCII does not count and `%`, `_` and the backslash stand for themselves.
-- If it finds fewer than the limit, it finds all of them.
pub search_values-Named :
    (is_space : ℕ → Bool) (fts : Db → Text → ℕ → Bool) (db : Db) (keyword : Text) (ft : Option ℕ)
    (limit : ℕ) (v : FieldValue)
    → all is_space keyword ≡ false
    → length keyword < 3
    → let found = search_values is_space fts db keyword ft limit in
      (In v found → In v db.field_values × (of_type ft v ≡ true) × Named db keyword v)
      × (length found < value_limit limit
          → In v db.field_values
          → of_type ft v ≡ true
          → Named db keyword v
          → In v found)
unfolding search_values search_values_like
search_values-Named is_space fts db keyword ft limit v filled short =
    let few : leb 3 (length keyword) ≡ false = ground arith in
    rw (filled, few)
      (
        (λ m.
            let (k, t) = In-of_select test v db.field_values (
              (In-sort_by (λ (x : FieldValue). x.value) (select test db.field_values) v).0
                (In-take (value_limit limit) _ v m)) in
            (k, ground arith, (is_named-Named db keyword v).0 (ground arith))),
        λ less k t named. subst (In v) (sym (take-short (value_limit limit) _ less)) (
            (In-sort_by (λ (x : FieldValue). x.value) (select test db.field_values) v).1 (
              In-select test v db.field_values k
                (let n = (is_named-Named db keyword v).1 named in ground arith))),
      )
  where
    test : FieldValue → Bool
    test x = is_named db keyword x && of_type ft x
