-- ===== src/Tagging/Effective.antt =====
-- `EffectiveFields` of server/internal/tags/tagging.go: the tags of a path with those it inherits from
-- the directories above it. Rows of one file, whose order SQL leaves open, are in that of the table.
pub mod Ancestors
use file_tag_system.Prelude.{
  ℕ, zero, suc, List, [], ◌∷◌, ◌++◌, Bool, ◌==◌, ◌&&◌, not, ltb, Option, none, some, any, find, map,
  length, take, select, if◌then◌else◌,
}
use file_tag_system.Text.{Text, slash, text_eq}
use file_tag_system.Text.Decimal.{value, is_digit}
use file_tag_system.Db.{File, FieldType, FieldValue, FileField, Db}

-- `EffectiveField`
pub record EffectiveField : Type 0 where
  pub field_type_id : ℕ
  pub field_type_name : Text
  pub value_id : ℕ
  pub value : Text
  pub source_path : Text
  pub inherited : Bool
  pub breadcrumb : List Text

-- `strings.LastIndex(s, "/")`
unfoldable pub last_slash : Text → Option ℕ
last_slash [] = none
last_slash (c ∷ s) = elim (last_slash s) [
  | some i ↦ some (suc i)
  | none ↦ if c == slash then some 0 else none
]

-- `strings.TrimSuffix(s, "/")`
unfoldable pub trim_slash : Text → Text
trim_slash [] = []
trim_slash (c ∷ []) = if c == slash then [] else c ∷ []
trim_slash (c ∷ d ∷ s) = c ∷ trim_slash (d ∷ s)

-- The loop of `AncestorPaths`. It cuts the text before its last slash each time, so that the length
-- of the path is fuel enough.
unfoldable pub ancestors : ℕ → Text → Text → List Text
unfolding last_slash
ancestors zero path trimmed = []
ancestors (suc n) path trimmed = elim (last_slash trimmed) [
  | none ↦ []
  | some i ↦
      let dir = take (suc i) trimmed in
      let rest = ancestors n path (take i trimmed) in if text_eq dir path then rest else dir ∷ rest
]

-- `AncestorPaths`
unfoldable pub ancestor_paths : Text → List Text
unfolding ancestors trim_slash
ancestor_paths [] = []
ancestor_paths (c ∷ s) = (c ∷ s) ∷ ancestors (suc (length s)) (c ∷ s) (trim_slash (c ∷ s))

-- One row of the query: the tag, its type, its value, and the file that carries it.
record Joined : Type 0 where
  field_type : FieldType
  field_value : FieldValue
  path : Text

joined_value : Option FieldType → Option FieldValue → File → List Joined
joined_value (some t) (some v) f = record { field_type = t; field_value = v; path = f.path } ∷ []
joined_value _ _ f = []

-- The tags of a file, with their types and values.
tags_of_file : Db → File → List FileField → List Joined
unfolding joined_value
tags_of_file db f [] = []
tags_of_file db f (r ∷ rows) =
    let rest = tags_of_file db f rows in
    if r.file_id == f.id
    then joined_value (find (λ (t : FieldType). t.id == r.field_type_id) db.field_types)
        (find (λ (v : FieldValue). v.id == r.field_value_id) db.field_values) f
      ++ rest
    else rest

joined_files : Db → List File → List Joined
unfolding tags_of_file
joined_files db [] = []
joined_files db (f ∷ files) = tags_of_file db f db.file_fields ++ joined_files db files

-- `ORDER BY length(f.path) DESC`
insert_longest : Joined → List Joined → List Joined
insert_longest r [] = r ∷ []
insert_longest r (q ∷ rows) =
    let rest = insert_longest r rows in
    if ltb (length r.path) (length q.path) then q ∷ rest else r ∷ q ∷ rows

longest_first : List Joined → List Joined
unfolding insert_longest
longest_first [] = []
longest_first (r ∷ rows) = insert_longest r (longest_first rows)

query : Db → ℕ → List Text → List Joined
unfolding joined_files longest_first
query db sid paths = longest_first (
    joined_files db
      (select (λ (f : File). f.storage_id == sid && any (text_eq f.path) paths) db.files))

-- The loop over the rows: the first row of a field type wins. `seen` holds the types met.
nearest : List ℕ → List Joined → List Joined
nearest seen [] = []
nearest seen (r ∷ rows) =
    let without = nearest seen rows in
    if any (λ t. t == r.field_type.id) seen
    then without
    else r ∷ nearest (r.field_type.id ∷ seen) rows

-- `parsePathIDs`: the segments between slashes that are numbers; `cur` is the segment read
-- so far. A sign, which the path of a value never has, is not read.
end_segment : Text → List ℕ
unfolding is_digit
end_segment [] = []
end_segment (c ∷ cur) = if any (λ d. not (is_digit d)) (c ∷ cur) then [] else value 0 (c ∷ cur) ∷ []

segments : Text → Text → List ℕ
unfolding end_segment
segments cur [] = end_segment cur
segments cur (c ∷ s) =
    if c == slash then end_segment cur ++ segments [] s else segments (cur ++ c ∷ []) s

unfoldable pub path_ids : Text → List ℕ
unfolding segments
path_ids path = segments [] path

-- The labels of the values of a path, root first, as `fillBreadcrumbs` collects them.
crumbs : Db → List ℕ → List Text
crumbs db [] = []
crumbs db (i ∷ ids) =
    let rest = crumbs db ids in
    elim (find (λ (v : FieldValue). v.id == i) db.field_values) [
      | some v ↦ v.value ∷ rest
      | none ↦ rest
    ]

effective_of : Db → Text → Joined → EffectiveField
unfolding crumbs
effective_of db path r = record {
  field_type_id = r.field_type.id;
  field_type_name = r.field_type.name;
  value_id = r.field_value.id;
  value = r.field_value.value;
  source_path = r.path;
  inherited = not (text_eq r.path path);
  breadcrumb = crumbs db (path_ids r.field_value.path);
}

-- `sort.Slice(out, ...)` by the field type, of which each is there once.
insert_type : EffectiveField → List EffectiveField → List EffectiveField
insert_type e [] = e ∷ []
insert_type e (f ∷ fs) =
    let rest = insert_type e fs in
    if ltb f.field_type_id e.field_type_id then f ∷ rest else e ∷ f ∷ fs

by_type : List EffectiveField → List EffectiveField
unfolding insert_type
by_type [] = []
by_type (e ∷ es) = insert_type e (by_type es)

-- `EffectiveFields`
unfoldable pub effective_fields : Db → ℕ → Text → List EffectiveField
unfolding ancestor_paths query nearest effective_of by_type
effective_fields db sid path =
    by_type (map (effective_of db path) (nearest [] (query db sid (ancestor_paths path))))
