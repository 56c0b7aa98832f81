-- ===== src/Api.antt =====
-- server/internal/api: what the HTTP handlers share (middleware.go, respond.go, server.go and the
-- helpers of the handlers). A request is what a handler reads of it: a number in its path as `parseID`
-- returned it (negative numbers, which no row has, are left out), the texts of its query, and its
-- JSON body, which is `none` where `decodeJSON` fails. A reply is its status with its body.
pub mod Query
pub mod Files
pub mod Previews
pub mod Storages
pub mod Vocabulary
pub mod Batches
pub mod Admin
pub mod Find
pub mod SignIn
pub mod Calls
use file_tag_system.Prelude.{
  ℕ, List, [], ◌∷◌, ◌++◌, Bool, true, false, Option, none, some, map, if◌then◌else◌, ◌==◌,
}
use file_tag_system.Text.{Text, codes}
use file_tag_system.Models.{Action, admin, manage, PermSet, Permission}
use file_tag_system.Result.{Result, ok, err, Error, not_found}
use file_tag_system.Db.{StorageProvider, File, FieldType, FieldValue, Db}
use file_tag_system.Perm.Resolve.{resolve}
use file_tag_system.Catalog.{Child, get_file}
use file_tag_system.Search.{ResultFile}
use file_tag_system.Auth.Accounts.{User, Group, Accounts}
use file_tag_system.Auth.Limiter.{Limiter}
use file_tag_system.Auth.Refresh.{Issued}
use file_tag_system.Audit.{Entry, Operation, Detail, log}
use file_tag_system.Ingest.Jobs.{Job, JobManager}
use file_tag_system.Tagging.Effective.{EffectiveField}

-- What the server keeps between requests.
pub record State : Type 0 where
  pub db : Db
  pub accounts : Accounts
  pub entries : List Entry
  pub limiter : Limiter
  pub jobs : JobManager
  pub cache : Text → Option Text

-- `principal`
pub record Principal : Type 0 where
  pub user_id : ℕ
  pub groups : List ℕ

-- A user as `models.User` is sent: without the hash of the password.
pub record UserView : Type 0 where
  pub id : ℕ
  pub username : Text
  pub email : Text
  pub is_active : Bool

abbrev pub view_user : User → UserView
view_user u = record { id = u.id; username = u.username; email = u.email; is_active = u.is_active }

-- The bodies that the handlers send on success; the cookies that go with them are named.
pub data Body : Type 0 where
  nothing logged_out : Body
  file_body : File → Body
  files_body : List File → Body
  children : Text → List Child → Body
  fields : List EffectiveField → Body
  storage_body : Option StorageProvider → Body
  storages : List StorageProvider → Body
  job_id : ℕ → Body
  job_status : Option Job → Body
  file_id : ℕ → Body
  field_types : List FieldType → Body
  field_type_body : Option FieldType → Body
  field_value_body : FieldValue → Body
  field_values : List FieldValue → Body
  influence : ℕ → ℕ → Body
  usage : ℕ → ℕ → Body
  texts : List Text → Body
  id_body : ℕ → Body
  users : List UserView → Body
  groups : List Group → Body
  permissions : List Permission → Body
  log_entries : List Entry → Body
  effective_set : PermSet → Body
  found_files : List ResultFile → ℕ → Body
  user_body : UserView → Body
  signed_in_body : UserView → Issued → Body
  two_fa_pending : Text → Body
  new_tokens : Issued → Body
  two_fa_secret : Text → Body
  backup_codes : List Text → Body
  thumb_image : Text → Body
  preview_body : Text → Text → ℕ → Bool → Bool → Body
  raw_content : Text → Text → Body

-- `writeError` and `writeJSON`.
pub data Reply : Type 0 where
  failed : ℕ → Text → Reply
  answered : ℕ → Body → Reply

-- An error of a handler: the status and the message.
abbrev pub Refusal : Type 0
Refusal = ℕ × Text

abbrev pub unauthorized : Refusal
unauthorized = (401, codes "unauthorized")

abbrev pub forbidden : Refusal
forbidden = (403, codes "forbidden")

abbrev pub bad_id : Refusal
bad_id = (400, codes "bad id")

abbrev pub bad_body : Refusal
bad_body = (400, codes "invalid request body")

abbrev pub missing : Refusal
missing = (404, codes "not found")

abbrev pub internal : Refusal
internal = (500, codes "internal error")

-- A handler up to its `return`: an error is written and ends it.
pub data Flow {ℓ} (T : Type ℓ) : Type ℓ where
  stop : Refusal → Flow T
  go : T → Flow T

infixl 5 ◌>>=◌ ◌>>◌
abbrev pub ◌>>=◌ {ℓ κ} : {T : Type ℓ} {U : Type κ} → Flow T → (T → Flow U) → Flow U
stop r >>= next = stop r
go t >>= next = next t

abbrev pub ◌>>◌ {ℓ κ} : {T : Type ℓ} {U : Type κ} → Flow T → Flow U → Flow U
first >> next = first >>= λ _. next

-- `if !test { writeError(...); return }`
abbrev pub need : Bool → Refusal → Flow (Unit {0})
need false r = stop r
need true r = go tt

-- A value that may be missing, such as a number or a body that cannot be parsed.
abbrev pub given {ℓ} : {T : Type ℓ} → Option T → Refusal → Flow T
given none r = stop r
given (some t) r = go t

-- `if err != nil { ...; return }`, with the reply to each error.
abbrev pub attempt {ℓ} : {T : Type ℓ} → (Error → Refusal) → Result T → Flow T
attempt reply (err e) = stop (reply e)
attempt reply (ok t) = go t

-- `serverError`
abbrev pub server_error : Error → Refusal
server_error e = internal

-- `notFoundOr` and `notFoundOrTag`, whose sentinel errors are the one `not_found` here.
abbrev pub not_found_or : Error → Refusal
not_found_or not_found = missing
not_found_or e = internal

abbrev pub always : Refusal → Error → Refusal
always r e = r

-- What the client gets, and the state after it: a handler that stops leaves the state.
abbrev pub respond : State → Flow (Reply × State) → Reply × State
respond s (stop (status, text)) = (failed status text, s)
respond s (go done) = done

-- A row read again for the reply, its error ignored: `none` is the row of zero values.
abbrev pub kept {ℓ} : {T : Type ℓ} → Result T → Option T
kept (err e) = none
kept (ok t) = some t

abbrev pub no_content : Reply
no_content = answered 204 nothing

-- `can`
abbrev pub can : State → Principal → ℕ → Text → Action → Bool
can s p sid path a = resolve s.db p.user_id p.groups sid path a

-- `canSystem`
abbrev pub can_system : State → Principal → Action → Bool
can_system s p a = can s p 0 [] a

-- `requireVocabAdmin`
abbrev pub require_vocab_admin : State → Principal → Flow (Unit {0})
require_vocab_admin s p = need (can_system s p manage) forbidden

-- `requireSystemAdmin`
abbrev pub require_system_admin : State → Principal → Flow (Unit {0})
require_system_admin s p = need (can_system s p admin) forbidden

-- The guards of the handlers of one storage.
abbrev pub require_storage : State → Principal → Option ℕ → Action → Flow ℕ
require_storage s p id a = do sid ← given id bad_id; need (can s p sid [] a) forbidden; go sid

-- `fileForAction`
abbrev pub file_for : State → Principal → Option ℕ → Action → Flow File
file_for s p id a = do
  n ← given id bad_id
  f ← attempt not_found_or (get_file s.db n)
  need (can s p f.storage_id f.path a) forbidden
  go f

-- The state after `s.audit.Log`, for a request of this principal.
abbrev pub logged : Principal → Operation → Text → Option ℕ → List Detail → State → State
logged p op rt rid detail s = record s {
  entries = log s.accounts s.entries (some p.user_id) op rt rid detail;
}
