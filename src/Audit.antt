-- ===== src/Audit.antt =====
-- server/internal/audit/audit.go: the log of sensitive operations. The JSON text of a detail is the
-- list of its fields in the order of their names; the time of an entry is left out.
use file_tag_system.Prelude.{
  ℕ, List, [], ◌∷◌, ◌++◌, Bool, true, ◌==◌, ltb, ◌||◌, Option, none, some, take, is_some_of,
  if◌then◌else◌,
}
use file_tag_system.Text.{Text}
use file_tag_system.Db.{next_key}
use file_tag_system.Auth.Accounts.{Accounts, has_user}

-- The names of the actions.
pub data Operation : Type 0 where
  login login_fail tag_apply tag_remove value_delete : Operation
  perm_grant perm_revoke user_delete storage_del : Operation

-- A value of the JSON object of a detail.
pub data Detail : Type 0 where
  number : Text → ℕ → Detail
  string : Text → Text → Detail
  flag : Text → Bool → Detail

pub record Entry : Type 0 where
  pub id : ℕ
  pub user_id : Option ℕ
  pub action : Operation
  pub resource_type : Option Text
  pub resource_id : Option ℕ
  pub detail : List Detail

type_text : Text → Option Text
type_text [] = none
type_text (c ∷ s) = some (c ∷ s)

is_known : Accounts → Option ℕ → Bool
is_known acc none = true
is_known acc (some u) = has_user acc u

-- `Log`: an entry that names a user who is not there is refused by the table, and the code goes on.
unfoldable pub log :
    Accounts → List Entry → Option ℕ → Operation → Text → Option ℕ → List Detail → List Entry
unfolding is_known type_text
log acc entries user action rt rid detail =
    if is_known acc user
    then entries
      ++ record {
        id = next_key (λ (e : Entry). e.id) entries;
        user_id = user;
        action = action;
        resource_type = type_text rt;
        resource_id = rid;
        detail = detail;
      }
        ∷ []
    else entries

reverse_onto : List Entry → List Entry → List Entry
reverse_onto [] out = out
reverse_onto (e ∷ es) out = reverse_onto es (e ∷ out)

unfoldable pub list_limit : ℕ → ℕ
list_limit n = if n == 0 || ltb 1000 n then 100 else n

-- `List`: the newest entries first.
unfoldable pub list_entries : List Entry → ℕ → List Entry
unfolding list_limit reverse_onto
list_entries entries n = take (list_limit n) (reverse_onto entries [])

-- `ON DELETE SET NULL` on the user of an entry.
abbrev pub forget_user : ℕ → Entry → Entry
forget_user u e = if is_some_of e.user_id u then record e { user_id = none } else e
