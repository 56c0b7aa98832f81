-- ===== src/Search/Hits.antt =====
-- The result of `Search` (server/internal/search/search.go).
use file_tag_system.Prelude.{
  ℕ, zero, suc, ◌<◌, ◌≤◌, List, [], ◌∷◌, Bool, true, ◌&&◌, ltb, ◌≡◌, ◌↔◌, ◌⊎◌, inl, inr, refl, ap,
  ◌∙◌, sym, subst, arith, Option, none, some, In, In-select, In-of_select, In-map, In-of_map, all,
  select, map, length, Bool-cases, some_injective,
}
use file_tag_system.Result.{ok, >>=-eq-ok, ok_injective}
use file_tag_system.Db.{File, FileField, Db}
use file_tag_system.Search.{
  Filter, ResultFile, page_limit, expand, place, fewest_first, carries, is_hit, in_storage, by_id,
  result_of, page, finish, search,
}
use file_tag_system.Search.Page.{Ascending, file_id, ordered-Ascending, cut_sound, cut_complete}
use file_tag_system.Search.Filters.{
  Accepts, Expanded, expand-Expanded, expanded-some, expanded-none,
}

-- A file that the search means: it carries a value that the filter accepts, for every filter.
abbrev pub Meant : Db → Option ℕ → List Filter → ℕ → File → Type 0
Meant db sid filters cursor f =
    In f db.files
    × ((s : ℕ) → sid ≡ some s → f.storage_id ≡ s)
    × (cursor < f.id)
    × ((x : Filter)
        → In x filters
        → (r : FileField) × In r db.file_fields
          × (r.file_id ≡ f.id)
          × Accepts db x r.field_value_id)

all-place :
    (p : List ℕ → Bool) (s : List ℕ) (sets : List (List ℕ))
    → all p (place s sets) ≡ (p s && all p sets)
unfolding place
all-place p s [] = refl
all-place p s (t ∷ sets) = ground (arith, all-place p s sets)

all-fewest_first :
    (p : List ℕ → Bool) (sets : List (List ℕ)) → all p (fewest_first sets) ≡ all p sets
unfolding fewest_first
all-fewest_first p [] = refl
all-fewest_first p (s ∷ sets) =
    all-place p s (fewest_first sets) ∙ ap (λ b. p s && b) (all-fewest_first p sets)

in_storage_iff :
    (sid : Option ℕ) (s : ℕ) → (in_storage sid s ≡ true) ↔ ((k : ℕ) → sid ≡ some k → s ≡ k)
unfolding in_storage
in_storage_iff none s = ((λ t k e. cc), λ h. refl)
in_storage_iff (some i) s = (
  (λ t k e. let same : i ≡ k = some_injective e in ground arith),
  λ h. let same = h i refl in ground arith,
)

is_hit-Meant :
    (db : Db) (sid : Option ℕ) (fs : List Filter) (cursor : ℕ) (sets : List (List ℕ)) (f : File)
    → Expanded db fs (some sets)
    → (In f db.files × (is_hit db.file_fields (fewest_first sets) sid cursor f ≡ true))
      ↔ Meant db sid fs cursor f
unfolding is_hit in_storage
is_hit-Meant db sid fs cursor sets f e =
    let (to_all, of_all) = expanded-some db f.id fs sets e in
    let (to_place, of_place) = in_storage_iff sid f.storage_id in
    let same = all-fewest_first (carries db.file_fields f.id) sets in
    (
      (λ c. (c.0, to_place (ground arith), ground arith, to_all (ground arith))),
      λ c.
          let (m, s, past, a) = c in
          let carried = of_all a in let placed = of_place s in (m, ground arith),
    )

-- What a page holds, and what it leaves to the next one.
abbrev pub IsPage : Db → Option ℕ → List Filter → ℕ → ℕ → List ResultFile × ℕ → Type 0
IsPage db sid fs limit cursor p =
    (length p.0 ≤ page_limit limit)
    × ((r : ResultFile) → In r p.0 → (f : File) × (r ≡ result_of f) × Meant db sid fs cursor f)
    × ((f : File)
        → Meant db sid fs cursor f
        → In (result_of f) p.0 ⊎ ((cursor < p.1) × (p.1 < f.id)))

page_limit-cases : (n : ℕ) → (k : ℕ) × (page_limit n ≡ suc k)
unfolding page_limit
page_limit-cases zero = (49, ground arith)
page_limit-cases (suc n) = elim (Bool-cases (ltb 500 (suc n))) [
  | inl y ↦ (49, ground arith)
  | inr k ↦ (n, ground arith)
]

page-IsPage :
    (db : Db) (sid : Option ℕ) (fs : List Filter) (limit cursor : ℕ) (sets : List (List ℕ))
    → Ascending file_id db.files
    → Expanded db fs (some sets)
    → IsPage db sid fs limit cursor (page db sid (page_limit limit) cursor sets)
unfolding page
page-IsPage db sid fs limit cursor sets sorted e =
    let (n, size) = page_limit-cases limit in
    let hit = is_hit db.file_fields (fewest_first sets) sid cursor in
    let (same, order) = ordered-Ascending hit db.files sorted in
    let rows = map result_of (by_id (select hit db.files)) in
    let of_row : (r : ResultFile)
        → In r rows
        → (f : File) × (r ≡ result_of f) × Meant db sid fs cursor f =
      (λ r m.
        let (f, k, q) = In-of_map result_of r _ m in
        (
          f,
          q,
          (is_hit-Meant db sid fs cursor sets f e).0
              (In-of_select hit f db.files (subst (In f) same k)),
        )) in
    let (short, sound) = cut_sound (page_limit limit) rows in
    (
      short,
      λ r m. of_row r (sound r m),
      λ f meant.
          let (k, t) = (is_hit-Meant db sid fs cursor sets f e).1 meant in
          let m = In-map result_of f _ (subst (In f) (sym same) (In-select hit f db.files k t)) in
          rw size (
            cut_complete n cursor rows (result_of f) order
              (λ x j. let (g, q, w) = of_row x j in rw q w.2) m),
    )

finish-IsPage :
    (db : Db) (sid : Option ℕ) (fs : List Filter) (limit cursor : ℕ) (o : Option (List (List ℕ)))
    → Ascending file_id db.files
    → Expanded db fs o
    → IsPage db sid fs limit cursor (finish db sid (page_limit limit) cursor o)
unfolding finish
finish-IsPage db sid fs limit cursor none sorted e =
    (omega arith, (λ r m. elim m [ ]), λ f meant. elim (expanded-none db f.id fs e meant.3) [ ])
finish-IsPage db sid fs limit cursor (some sets) sorted e =
    page-IsPage db sid fs limit cursor sets sorted e

-- With the rows of `files` in the order of their ids, what `Search` returns is a page of the files
-- that it means: at most as many as the limit, each of them carrying for every filter a value that
-- the filter accepts, in the storage asked for, with an id behind the cursor; and every such file is
-- on the page, or the returned cursor has moved on and is still before the file.
pub search-IsPage :
    (db : Db) (sid : Option ℕ) (fs : List Filter) (limit cursor : ℕ) (p : List ResultFile × ℕ)
    → Ascending file_id db.files
    → search db sid fs limit cursor ≡ ok p
    → IsPage db sid fs limit cursor p
unfolding search
search-IsPage db sid [] limit cursor p sorted h = cc
search-IsPage db sid (x ∷ fs) limit cursor p sorted h =
    let (o, e, k) = >>=-eq-ok (expand db (x ∷ fs)) _ h in
    subst (IsPage db sid (x ∷ fs) limit cursor) (ok_injective k)
      (finish-IsPage db sid (x ∷ fs) limit cursor o sorted (expand-Expanded db (x ∷ fs) o e))
