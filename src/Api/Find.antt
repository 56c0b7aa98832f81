-- ===== src/Api/Find.antt =====
-- server/internal/api/handlers_search.go. The query gives the filters in the order of their numbers.
use file_tag_system.Prelude.{ℕ, List, [], ◌∷◌, Bool, true, false, ◌||◌, Option, none, some}
use file_tag_system.Text.{Text, codes, text_eq}
use file_tag_system.Models.{read}
use file_tag_system.Search.{Filter, search}
use file_tag_system.Api.{
  State, Principal, Reply, answered, Flow, go, respond, need, attempt, ◌>>=◌, ◌>>◌, can, can_system,
  forbidden, server_error, found_files,
}
use file_tag_system.Api.Query.{parse_id2, or_else}

-- The three query values of one filter.
pub record FilterText : Type 0 where
  pub field_type_id : Text
  pub field_value_id : Text
  pub strict : Text

is_strict : Text → Bool
is_strict t = text_eq t (codes "true") || text_eq t (codes "1")

one_filter : Option ℕ → Option ℕ → Text → List Filter → List Filter
unfolding is_strict
one_filter (some ft) (some fv) strict rest =
    record { field_type_id = ft; field_value_id = fv; strict = is_strict strict } ∷ rest
one_filter _ _ strict rest = []

-- The loop over the filters ends at the first that is not there or not two numbers.
unfoldable pub read_filters : List FilterText → List Filter
unfolding one_filter
read_filters [] = []
read_filters (t ∷ ts) =
    one_filter (parse_id2 t.field_type_id) (parse_id2 t.field_value_id) t.strict (read_filters ts)

-- The storage that bounds the search, which the caller may read.
unfoldable pub scope : State → Principal → Option ℕ → Flow (Option ℕ)
scope s p none = do need (can_system s p read) forbidden; go none
scope s p (some sid) = do need (can s p sid [] read) forbidden; go (some sid)

has_filters : List Filter → Bool
has_filters [] = false
has_filters (f ∷ fs) = true

-- `handleSearch`
unfoldable pub handle_search :
    State → Principal → Text → List FilterText → Text → Text → Reply × State
unfolding scope has_filters or_else
handle_search s p storage_id filters limit cursor = respond s do
  sid ← scope s p (parse_id2 storage_id)
  need (has_filters (read_filters filters)) (400, codes "at least one filter is required")
  (results, next) ← attempt server_error (
      search s.db sid (read_filters filters) (or_else 50 (parse_id2 limit))
        (or_else 0 (parse_id2 cursor)))
  go (answered 200 (found_files results next), s)
