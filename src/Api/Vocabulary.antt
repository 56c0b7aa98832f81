-- ===== src/Api/Vocabulary.antt =====
-- server/internal/api/handlers_tags.go, and the handlers of merge, usage and unused values of
-- handlers_governance.go.
use file_tag_system.Prelude.{ℕ, List, [], ◌∷◌, Bool, not, Option, none, some, if◌then◌else◌}
use file_tag_system.Text.{Text, codes, text_eq}
use file_tag_system.Result.{
  Result, ok, Error, not_found, cycle, field_type_mismatch, multi_value_conflict, has_children,
}
use file_tag_system.Db.{FieldValue, Db}
use file_tag_system.Tags.{
  create_field_type, get_field_type, update_field_type, delete_field_type, create_field_value,
  rename_field_value, move_field_value, delete_field_value, add_alias, delete_alias,
}
use file_tag_system.Tags.Lists.{
  list_field_types, list_root_values, list_child_values, list_aliases, unused_values,
  delete_influence,
}
use file_tag_system.Search.Texts.{search_values}
use file_tag_system.Api.Query.{parse_id2}
use file_tag_system.Tagging.Governance.{merge_field_value, value_usage}
use file_tag_system.Audit.{value_delete}
use file_tag_system.Api.{
  State, Principal, Reply, answered, Refusal, Flow, go, respond, need, given, attempt, ◌>>=◌, ◌>>◌,
  no_content, require_vocab_admin, logged, bad_id, bad_body, missing, internal, server_error,
  not_found_or, kept, field_types, field_type_body, field_values, field_value_body, influence,
  usage, texts, id_body,
}

-- `handleListFieldTypes`
unfoldable pub handle_list_field_types : State → Reply × State
handle_list_field_types s = (answered 200 (field_types (list_field_types s.db)), s)

pub record TypeFields : Type 0 where
  pub name : Text
  pub allow_multi : Bool

-- `handleCreateFieldType`
unfoldable pub handle_create_field_type : State → Principal → Option TypeFields → Reply × State
handle_create_field_type s p body = respond s do
  require_vocab_admin s p
  req ← given body bad_body
  need (not (text_eq req.name [])) (400, codes "name required")
  let (id, db) = create_field_type s.db req.name req.allow_multi
  go (answered 201 (field_type_body (kept (get_field_type db id))), record s { db = db })

type_refusal : Error → Refusal
type_refusal not_found = missing
type_refusal multi_value_conflict =
    (409, codes "tags: files have multiple values for this field type")
type_refusal e = internal

-- `handleUpdateFieldType`
unfoldable pub handle_update_field_type :
    State → Principal → Option ℕ → Option TypeFields → Reply × State
unfolding type_refusal
handle_update_field_type s p id body = respond s do
  require_vocab_admin s p
  ft ← given id bad_id
  req ← given body bad_body
  db ← attempt type_refusal (update_field_type s.db ft req.name req.allow_multi)
  go (no_content, record s { db = db })

-- `handleDeleteFieldType`
unfoldable pub handle_delete_field_type : State → Principal → Option ℕ → Reply × State
handle_delete_field_type s p id = respond s do
  require_vocab_admin s p
  ft ← given id bad_id
  db ← attempt not_found_or (delete_field_type s.db ft)
  go (no_content, record s { db = db })

-- `handleListRootValues`
unfoldable pub handle_list_root_values : State → Option ℕ → Reply × State
handle_list_root_values s id =
    respond s
      do ft ← given id bad_id; go (answered 200 (field_values (list_root_values s.db ft)), s)

-- `handleListChildValues`
unfoldable pub handle_list_child_values : State → Option ℕ → Reply × State
handle_list_child_values s id =
    respond s
      do fv ← given id bad_id; go (answered 200 (field_values (list_child_values s.db fv)), s)

pub record NewValue : Type 0 where
  pub field_type_id : ℕ
  pub parent_id : Option ℕ
  pub value : Text

abbrev pub mismatch_text : Text
mismatch_text = codes "tags: parent is in a different field type"

value_refusal : Error → Refusal
value_refusal not_found = (400, codes "tags: not found")
value_refusal field_type_mismatch = (400, mismatch_text)
value_refusal e = internal

-- `handleCreateFieldValue`
unfoldable pub handle_create_field_value : State → Principal → Option NewValue → Reply × State
unfolding value_refusal
handle_create_field_value s p body = respond s do
  require_vocab_admin s p
  req ← given body bad_body
  need (not (text_eq req.value [])) (400, codes "value required")
  done ← attempt value_refusal (create_field_value s.db req.field_type_id req.parent_id req.value)
  go (answered 201 (field_value_body done.0), record s { db = done.1 })

pub record ValueChange : Type 0 where
  pub value : Option Text
  pub reparent : Bool
  pub parent_id : Option ℕ

move_refusal : Error → Refusal
move_refusal cycle = (400, codes "tags: cannot move a node into its own subtree")
move_refusal field_type_mismatch = (400, mismatch_text)
move_refusal e = not_found_or e

unfoldable pub rename_if : Db → ℕ → Option Text → Result Db
rename_if db id none = ok db
rename_if db id (some value) = rename_field_value db id value

-- The part of `handleUpdateFieldValue` behind the rename, which the database has already.
unfoldable pub move_if : State → ℕ → ValueChange → Reply × State
unfolding move_refusal
move_if s id req = respond s (
    if req.reparent
    then (do
      db ← attempt move_refusal (move_field_value s.db id req.parent_id)
      go (no_content, record s { db = db }))
    else go (no_content, s))

-- `handleUpdateFieldValue`
unfoldable pub handle_update_field_value :
    State → Principal → Option ℕ → Option ValueChange → Reply × State
unfolding rename_if move_if
handle_update_field_value s p id body = respond s do
  require_vocab_admin s p
  fv ← given id bad_id
  req ← given body bad_body
  db ← attempt not_found_or (rename_if s.db fv req.value)
  go (move_if (record s { db = db }) fv req)

-- The query `dry_run=1` of `handleDeleteFieldValue`.
count_only : State → ℕ → Flow (Reply × State)
count_only s fv = do
  (values, files) ← attempt not_found_or (delete_influence s.db fv)
  go (answered 200 (influence values files), s)

drop_value : State → Principal → ℕ → Flow (Reply × State)
drop_value s p fv = do
  db ← attempt not_found_or (delete_field_value s.db fv)
  go (no_content, logged p value_delete (codes "field_value") (some fv) [] (record s { db = db }))

-- `handleDeleteFieldValue`
unfoldable pub handle_delete_field_value : State → Principal → Option ℕ → Text → Reply × State
unfolding count_only drop_value
handle_delete_field_value s p id dry_run = respond s do
  require_vocab_admin s p
  fv ← given id bad_id
  if text_eq dry_run (codes "1") then count_only s fv else drop_value s p fv

search_reply : (ℕ → Bool) → (Db → Text → ℕ → Bool) → State → Text → Text → List FieldValue
search_reply is_space fts s [] ft = []
search_reply is_space fts s (c ∷ q) ft = search_values is_space fts s.db (c ∷ q) (parse_id2 ft) 50

-- `handleSearchValues`
unfoldable pub handle_search_values :
    (ℕ → Bool) → (Db → Text → ℕ → Bool) → State → Text → Text → Reply × State
unfolding search_reply
handle_search_values is_space fts s q ft =
    (answered 200 (field_values (search_reply is_space fts s q ft)), s)

-- `handleListAliases`
unfoldable pub handle_list_aliases : State → Option ℕ → Reply × State
handle_list_aliases s id =
    respond s do fv ← given id bad_id; go (answered 200 (texts (list_aliases s.db fv)), s)

-- `handleAddAlias`
unfoldable pub handle_add_alias : State → Principal → Option ℕ → Option Text → Reply × State
handle_add_alias s p id body = respond s do
  require_vocab_admin s p
  fv ← given id bad_id
  alias ← given body bad_body
  (aid, db) ← attempt server_error (add_alias s.db fv alias)
  go (answered 201 (id_body aid), record s { db = db })

-- `handleDeleteAlias`
unfoldable pub handle_delete_alias : State → Principal → Option ℕ → Reply × State
handle_delete_alias s p aid = respond s do
  require_vocab_admin s p
  id ← given aid bad_id
  go (no_content, record s { db = delete_alias s.db id })

merge_refusal : Error → Refusal
merge_refusal not_found = missing
merge_refusal has_children = (400, codes "tags: cannot merge a value that has children")
merge_refusal field_type_mismatch = (400, mismatch_text)
merge_refusal e = internal

-- `handleMergeValue`
unfoldable pub handle_merge_value : State → Principal → Option ℕ → Option ℕ → Reply × State
unfolding merge_refusal
handle_merge_value s p id body = respond s do
  require_vocab_admin s p
  fv ← given id bad_id
  target ← given body bad_body
  db ← attempt merge_refusal (merge_field_value s.db fv target)
  go (no_content, record s { db = db })

-- `handleValueUsage`
unfoldable pub handle_value_usage : State → Option ℕ → Reply × State
handle_value_usage s id = respond s do
  fv ← given id bad_id
  (direct, subtree) ← attempt not_found_or (value_usage s.db fv)
  go (answered 200 (usage direct subtree), s)

-- `handleUnusedValues`
unfoldable pub handle_unused_values : State → Option ℕ → Reply × State
handle_unused_values s id =
    respond s do ft ← given id bad_id; go (answered 200 (field_values (unused_values s.db ft)), s)
