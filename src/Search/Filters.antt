-- ===== src/Search/Filters.antt =====
-- `valueIDs` and the sets that `Search` expands its filters to (server/internal/search/search.go).
use file_tag_system.Prelude.{
  ℕ, List, [], ◌∷◌, true, false, ◌==◌, ◌≡◌, ◌↔◌, ◌⊎◌, inl, inr, refl, ◌∙◌, sym, subst, arith,
  Option, none, some, In, Never, In-select, In-of_select, In-map, In-of_map, all, any-true,
  any-elim, select, map, Bool-cases, some_injective,
}
use file_tag_system.Text.Like.{like_prefix}
use file_tag_system.Result.{Result, ok, err, no_rows, found, >>=-eq-ok, ok_injective, found-eq-ok}
use file_tag_system.Db.{FieldValue, FileField, Db}
use file_tag_system.Tags.{value_of}
use file_tag_system.Search.{Filter, value_ids, is_below, expand, carries}

-- The values that a filter accepts.
abbrev pub Accepts : Db → Filter → ℕ → Type 0
Accepts db f id =
    ((f.strict ≡ true) × (id ≡ f.field_value_id))
    ⊎ ((f.strict ≡ false)
        × (v : FieldValue) × (x : FieldValue) × (value_of db f.field_value_id ≡ some v)
        × In x db.field_values
        × (x.id ≡ id)
        × (x.field_type_id ≡ f.field_type_id)
        × (like_prefix v.path x.path ≡ true))

value_ids-Accepts :
    (db : Db) (f : Filter) (ids : List ℕ)
    → value_ids db f ≡ ok ids
    → (id : ℕ) → In id ids ↔ Accepts db f id
unfolding value_ids
value_ids-Accepts db f ids h id = elim (Bool-cases f.strict) [
  | inl y ↦
      let e : ids ≡ f.field_value_id ∷ [] = ok_injective (sym (rw y at h)) in
      rw e (
        (λ m. elim m [ inl p ↦ inl (y, p) | inr n ↦ elim n [ ] ]),
        λ a. elim a [ inl p ↦ inl p.1 | inr p ↦ absurd (ground arith) ],
      )
  | inr n ↦
      let (v, hv, k) = >>=-eq-ok (found no_rows (value_of db f.field_value_id)) _ (rw n at h) in
      let found_v = found-eq-ok no_rows _ hv in
      rw (← ok_injective k) (
        (λ m.
            let (x, j, e) = In-of_map (λ (x : FieldValue). x.id) id _ m in
            let (i, t) = In-of_select (is_below f.field_type_id v.path) x db.field_values j in
            inr (n, v, x, found_v, i, sym e, ground arith, ground arith)),
        λ a. elim a [
          | inl p ↦ absurd (ground arith)
          | inr p ↦
              let (off, w, x, hw, i, e, t, b) = p in
              let same : w ≡ v = some_injective (sym hw ∙ found_v) in
              let here : like_prefix v.path x.path ≡ true =
                subst (λ (z : FieldValue). like_prefix z.path x.path ≡ true) same b in
              subst
                (λ z. In z (
                  map (λ (y : FieldValue). y.id)
                    (select (is_below f.field_type_id v.path) db.field_values)))
                e
                (In-map (λ (x : FieldValue). x.id) x _
                  (In-select (is_below f.field_type_id v.path) x db.field_values i (ground arith)))
        ],
      )
]

-- The file carries a value that the filter accepts.
abbrev pub Carries : Db → ℕ → Filter → Type 0
Carries db file x =
    (r : FileField) × In r db.file_fields × (r.file_id ≡ file) × Accepts db x r.field_value_id

carries-Carries :
    (db : Db) (x : Filter) (ids : List ℕ) (file : ℕ)
    → value_ids db x ≡ ok ids
    → (carries db.file_fields file ids ≡ true) ↔ Carries db file x
carries-Carries db x ids file h = (
  (λ c.
      let (r, m, t) = any-elim _ db.file_fields c in
      let (i, k, e) = any-elim (λ i. i == r.field_value_id) ids (ground arith) in
      let same : i ≡ r.field_value_id = ground arith in
      (
        r,
        m,
        ground arith,
        (value_ids-Accepts db x ids h r.field_value_id).0 (subst (λ z. In z ids) same k),
      )),
  λ c.
      let (r, m, e, a) = c in
      let k = (value_ids-Accepts db x ids h r.field_value_id).1 a in
      let held = any-true (λ i. i == r.field_value_id) r.field_value_id ids k (ground arith) in
      any-true _ r db.file_fields m (ground arith),
)

-- Each filter of the list has a value that the file carries.
abbrev pub CarriesAll : Db → ℕ → List Filter → Type 0
CarriesAll db file fs = (x : Filter) → In x fs → Carries db file x

pub data Expanded (db : Db) : List Filter → Option (List (List ℕ)) → Type 0 where
  done : Expanded db [] (some [])
  more :
      (x : Filter) (fs : List Filter) (ids : List ℕ) (sets : List (List ℕ))
      → value_ids db x ≡ ok ids
      → Expanded db fs (some sets)
      → Expanded db (x ∷ fs) (some (ids ∷ sets))
  nothing : (x : Filter) (fs : List Filter) → value_ids db x ≡ ok [] → Expanded db (x ∷ fs) none
  later : (x : Filter) (fs : List Filter) → Expanded db fs none → Expanded db (x ∷ fs) none

pub expand-Expanded :
    (db : Db) (fs : List Filter) (o : Option (List (List ℕ)))
    → expand db fs ≡ ok o
    → Expanded db fs o
unfolding expand
expand-Expanded db [] o h = subst (Expanded db []) (ok_injective h) done
expand-Expanded db (x ∷ fs) o h =
    by_values (value_ids db x) refl (expand db fs) refl (λ q w. expand-Expanded db fs q w)
  where
    by_values :
        (r : Result (List ℕ))
        → value_ids db x ≡ r
        → (q : Result (Option (List (List ℕ)))) → expand db fs ≡ q
        → ((k : Option (List (List ℕ))) → expand db fs ≡ ok k → Expanded db fs k)
        → Expanded db (x ∷ fs) o
    by_values (err e) p q w rest = cc (rw (p, expand) at h)
    by_values (ok []) p q w rest =
        subst (Expanded db (x ∷ fs)) (ok_injective (rw (p, expand) at h)) (nothing x fs p)
    by_values (ok (i ∷ is)) p (err e) w rest = cc (rw (p, w, expand) at h)
    by_values (ok (i ∷ is)) p (ok none) w rest =
        subst (Expanded db (x ∷ fs)) (ok_injective (rw (p, w, expand) at h))
          (later x fs (rest none w))
    by_values (ok (i ∷ is)) p (ok (some sets)) w rest =
        subst (Expanded db (x ∷ fs)) (ok_injective (rw (p, w, expand) at h))
          (more x fs (i ∷ is) sets p (rest (some sets) w))

pub expanded-some :
    (db : Db) (file : ℕ) (fs : List Filter) (sets : List (List ℕ))
    → Expanded db fs (some sets)
    → (all (carries db.file_fields file) sets ≡ true) ↔ CarriesAll db file fs
expanded-some db file fs sets done = ((λ t x m. elim m [ ]), λ c. refl)
expanded-some db file fs sets (more x rest ids others h e) = (
  (λ t y m. elim m [
    | inl p ↦ subst (Carries db file) (sym p) ((carries-Carries db x ids file h).0 (ground arith))
    | inr k ↦ (expanded-some db file rest others e).0 (ground arith) y k
  ]),
  λ c.
      let first = (carries-Carries db x ids file h).1 (c x (inl refl)) in
      let rest = (expanded-some db file rest others e).1 (λ y k. c y (inr k)) in rw (first, rest),
)

-- An empty set of ids leaves no file.
pub expanded-none :
    (db : Db) (file : ℕ) (fs : List Filter)
    → Expanded db fs none
    → CarriesAll db file fs
    → Never {0}
expanded-none db file fs (nothing x rest h) c =
    let (r, m, e, a) = c x (inl refl) in (value_ids-Accepts db x [] h r.field_value_id).1 a
expanded-none db file fs (later x rest e) c = expanded-none db file rest e (λ y k. c y (inr k))
