-- ===== src/Tagging/Apply.antt =====
-- `applyTx` of server/internal/tags/tagging.go and the fields of one value.
use mathlib.Core.List.{append-nil}
use file_tag_system.Prelude.{
  ℕ, ◌≤◌, List, [], ◌∷◌, ◌++◌, Bool, true, false, ◌&&◌, ◌==◌, ◌≡◌, ◌≢◌, ◌↔◌, ◌⊎◌, inl, inr, refl,
  sym, ap, ◌∙◌, subst, arith, some, In, In-append_left, In-append_right, In-append_cases, any,
  any-elim, select, select-append, length, some_injective, ==_refl, if◌then◌else◌, Bool-cases, find,
}
use file_tag_system.Result.{
  ok, no_rows, constraint, found, >>=-eq-ok, ok_injective, guard-eq-ok, found-eq-ok,
}
use file_tag_system.Db.{FieldType, FileField, Db}
use file_tag_system.Db.Cascade.{has_file, has_type, has_value}
use file_tag_system.Tags.{type_of, applied}
use file_tag_system.Tagging.{is_tag, clear, is_row, tag_row, insert_tag, apply_tag}

-- A field type with one value only has at most one row for each file.
abbrev pub SingleValued : Db → Type 0
SingleValued db =
    (ft : ℕ) (t : FieldType)
    → type_of db ft ≡ some t
    → t.allow_multi ≡ false
    → (file : ℕ) → length (applied file ft db.file_fields) ≤ 1

abbrev pub Elsewhere : ℕ → ℕ → ℕ → ℕ → Type 0
Elsewhere file ft f t = (f ≢ file) ⊎ (t ≢ ft)

pub applied-clear_self : (f t : ℕ) (rows : List FileField) → applied f t (clear f t rows) ≡ []
applied-clear_self f t [] = refl
applied-clear_self f t (r ∷ rows) = ground (arith, applied-clear_self f t rows)

pub applied-clear_other :
    (file ft f t : ℕ) (rows : List FileField)
    → Elsewhere file ft f t
    → applied f t (clear file ft rows) ≡ applied f t rows
applied-clear_other file ft f t [] h = refl
applied-clear_other file ft f t (r ∷ rows) (inl n) =
    ground (arith, applied-clear_other file ft f t rows (inl n))
applied-clear_other file ft f t (r ∷ rows) (inr n) =
    ground (arith, applied-clear_other file ft f t rows (inr n))

applied-add_other :
    (file ft fv f t : ℕ) (rows : List FileField)
    → Elsewhere file ft f t
    → applied f t (rows ++ tag_row file ft fv ∷ []) ≡ applied f t rows
applied-add_other file ft fv f t rows h =
    select-append (is_tag f t) rows (tag_row file ft fv ∷ []) ∙ rw (none_of_it h) (append-nil _)
  where
    none_of_it : Elsewhere file ft f t → select (is_tag f t) (tag_row file ft fv ∷ []) ≡ []
    none_of_it (inl n) = ground arith
    none_of_it (inr n) = ground arith

applied-none :
    (f t : ℕ) (rows : List FileField) (r : FileField)
    → In r rows
    → is_tag f t r ≡ true
    → applied f t rows ≢ []
applied-none f t [] r m h e = elim m [ ]
applied-none f t (s ∷ rows) r (inl p) h e =
    let here : is_tag f t s ≡ true = (subst (λ x. is_tag f t x ≡ true) p h) in cc (rw here at e)
applied-none f t (s ∷ rows) r (inr m) h e = elim (Bool-cases (is_tag f t s)) [
  | inl y ↦ cc (rw y at e)
  | inr n ↦ applied-none f t rows r m h (rw n at e)
]

-- The two outcomes of the insert.
data Tagged (db : Db) (rows : List FileField) (file ft fv : ℕ) (db' : Db) : Type 0 where
  kept :
      any (is_row file ft fv) rows ≡ true
      → record db { file_fields = rows } ≡ db'
      → Tagged db rows file ft fv db'
  added :
      any (is_row file ft fv) rows ≡ false
      → record db { file_fields = rows ++ tag_row file ft fv ∷ [] } ≡ db'
      → Tagged db rows file ft fv db'

insert_tag-Tagged :
    (db db' : Db) (rows : List FileField) (file ft fv : ℕ)
    → insert_tag db rows file ft fv ≡ ok db'
    → Tagged db rows file ft fv db'
unfolding insert_tag
insert_tag-Tagged db db' rows file ft fv h = elim (Bool-cases (any (is_row file ft fv) rows)) [
  | inl y ↦ kept y (ok_injective (rw y at h))
  | inr n ↦ added n (
      ok_injective
        (guard-eq-ok
          (has_file db.files file && has_type db.field_types ft && has_value db.field_values fv)
          constraint _ (rw n at h)).1)
]

apply_tag-Tagged :
    (db db' : Db) (file ft fv : ℕ)
    → apply_tag db file ft fv ≡ ok db'
    → (t : FieldType) × (type_of db ft ≡ some t)
      × Tagged db
          (if t.allow_multi then db.file_fields else clear file ft db.file_fields)
          file
          ft
          fv
          db'
unfolding apply_tag
apply_tag-Tagged db db' file ft fv h =
    let (t, f, k) = >>=-eq-ok (found no_rows (type_of db ft)) _ h in
    (t, found-eq-ok no_rows _ f, insert_tag-Tagged db db' _ file ft fv k)

-- Applying a value of a single-value field leaves the file with this value alone for the field, and
-- the other fields of the file and all other files as they were.
pub apply_tag-single :
    (db db' : Db) (file ft fv : ℕ) (t : FieldType)
    → type_of db ft ≡ some t
    → t.allow_multi ≡ false
    → apply_tag db file ft fv ≡ ok db'
    → (applied file ft db'.file_fields ≡ tag_row file ft fv ∷ [])
      × ((f u : ℕ)
          → Elsewhere file ft f u
          → applied f u db'.file_fields ≡ applied f u db.file_fields)
apply_tag-single db db' file ft fv t ht single h =
    let (s, hs, tagged) = apply_tag-Tagged db db' file ft fv h in
    let off : s.allow_multi ≡ false =
      ap (λ (x : FieldType). x.allow_multi) (some_injective (sym hs ∙ ht)) ∙ single in
    by_outcome (rw off at tagged)
  where
    by_outcome :
        Tagged db (clear file ft db.file_fields) file ft fv db'
        → (applied file ft db'.file_fields ≡ tag_row file ft fv ∷ [])
          × ((f u : ℕ)
              → Elsewhere file ft f u
              → applied f u db'.file_fields ≡ applied f u db.file_fields)
    by_outcome (kept y e) =
        let (r, m, p) = any-elim (is_row file ft fv) (clear file ft db.file_fields) y in
        absurd (
          applied-none file ft (clear file ft db.file_fields) r m (ground arith)
            (applied-clear_self file ft db.file_fields))
    by_outcome (added n e) = rw (← e) (
      select-append (is_tag file ft) (clear file ft db.file_fields) (tag_row file ft fv ∷ [])
          ∙ rw (applied-clear_self file ft db.file_fields) (rw (==_refl file, ==_refl ft) refl),
      λ f u apart.
          applied-add_other file ft fv f u (clear file ft db.file_fields) apart
          ∙ applied-clear_other file ft f u db.file_fields apart,
    )

-- Applying a value of a multi-value field keeps every row and adds this one, if it is not there.
pub apply_tag-multi :
    (db db' : Db) (file ft fv : ℕ) (t : FieldType)
    → type_of db ft ≡ some t
    → t.allow_multi ≡ true
    → apply_tag db file ft fv ≡ ok db'
    → (r : FileField) → In r db'.file_fields ↔ (In r db.file_fields ⊎ (r ≡ tag_row file ft fv))
apply_tag-multi db db' file ft fv t ht multi h r =
    let (s, hs, tagged) = apply_tag-Tagged db db' file ft fv h in
    let on : s.allow_multi ≡ true =
      ap (λ (x : FieldType). x.allow_multi) (some_injective (sym hs ∙ ht)) ∙ multi in
    by_outcome (rw on at tagged)
  where
    by_outcome :
        Tagged db db.file_fields file ft fv db'
        → In r db'.file_fields ↔ (In r db.file_fields ⊎ (r ≡ tag_row file ft fv))
    by_outcome (kept y e) =
        let (x, m, p) = any-elim (is_row file ft fv) db.file_fields y in
        let same : x ≡ tag_row file ft fv = ground arith in
        rw (← e) ((λ k. inl k), λ c. elim c [ inl k ↦ k | inr q ↦ rw (q, ← same) m ])
    by_outcome (added n e) = rw (← e) (
      (λ k. elim (In-append_cases r db.file_fields _ k) [
        | inl i ↦ inl i
        | inr (inl q) ↦ inr q
        | inr (inr q) ↦ elim q [ ]
      ]),
      λ c. elim c [
        | inl k ↦ In-append_left r db.file_fields _ k
        | inr q ↦ In-append_right r db.file_fields _ (inl q)
      ],
    )

types-apply_tag :
    (db db' : Db) (file ft fv : ℕ)
    → apply_tag db file ft fv ≡ ok db'
    → db'.field_types ≡ db.field_types
types-apply_tag db db' file ft fv h =
    let (t, ht, tagged) = apply_tag-Tagged db db' file ft fv h in by_outcome _ tagged
  where
    by_outcome :
        (rows : List FileField) → Tagged db rows file ft fv db' → db'.field_types ≡ db.field_types
    by_outcome rows (kept y e) = ap (λ (d : Db). d.field_types) (sym e)
    by_outcome rows (added n e) = ap (λ (d : Db). d.field_types) (sym e)

-- Applying a value leaves the rows of every other field and of every other file as they were.
apply_tag-other :
    (db db' : Db) (file ft fv f u : ℕ)
    → apply_tag db file ft fv ≡ ok db'
    → Elsewhere file ft f u
    → applied f u db'.file_fields ≡ applied f u db.file_fields
apply_tag-other db db' file ft fv f u h apart =
    let (s, hs, tagged) = apply_tag-Tagged db db' file ft fv h in
    by_outcome _ tagged (rows_before s.allow_multi)
  where
    rows_before :
        (multi : Bool)
        → applied f u (if multi then db.file_fields else clear file ft db.file_fields)
          ≡ applied f u db.file_fields
    rows_before true = refl
    rows_before false = applied-clear_other file ft f u db.file_fields apart

    by_outcome :
        (rows : List FileField)
        → Tagged db rows file ft fv db'
        → applied f u rows ≡ applied f u db.file_fields
        → applied f u db'.file_fields ≡ applied f u db.file_fields
    by_outcome rows (kept y e) same = rw (← e) same
    by_outcome rows (added n e) same = rw (← e) (applied-add_other file ft fv f u rows apart ∙ same)

-- Applying a value keeps every single-value field single, whatever the field it is applied for.
pub apply_tag-SingleValued :
    (db db' : Db) (file ft fv : ℕ)
    → SingleValued db
    → apply_tag db file ft fv ≡ ok db'
    → SingleValued db'
apply_tag-SingleValued db db' file ft fv inv h id t ht single f =
    by_place (Bool-cases (id == ft)) (Bool-cases (f == file))
  where
    before : type_of db id ≡ some t
    before =
        ap (find (λ (x : FieldType). x.id == id)) (sym (types-apply_tag db db' file ft fv h)) ∙ ht

    apart_keeps : Elsewhere file ft f id → length (applied f id db'.file_fields) ≤ 1
    apart_keeps apart =
        rw (apply_tag-other db db' file ft fv f id h apart) (inv id t before single f)

    by_place :
        ((id == ft) ≡ true) ⊎ ((id == ft) ≡ false)
        → ((f == file) ≡ true) ⊎ ((f == file) ≡ false)
        → length (applied f id db'.file_fields) ≤ 1
    by_place (inr n) c = apart_keeps (inr (ground arith))
    by_place (inl y) (inr n) = apart_keeps (inl (ground arith))
    by_place (inl y) (inl z) =
        let same_field : ft ≡ id = ground arith in
        let same_file : file ≡ f = ground arith in
        rw (← same_field, ← same_file)
          (rw ((apply_tag-single db db' file ft fv t (rw same_field before) single h).0)
            (omega arith))
