-- ===== src/Api/Calls/Stops.antt =====
-- Where the handlers of server/internal/api stop: a guard that fails ends them with an error.
use file_tag_system.Prelude.{
  ℕ, List, [], ◌∷◌, Bool, false, ◌≡◌, refl, Option, none, some, all, Bool-cases, inl, inr,
}
use file_tag_system.Text.{Text}
use file_tag_system.Models.{Action, Permission}
use file_tag_system.Result.{Result, ok, err, Error}
use file_tag_system.Catalog
use file_tag_system.Perm.Admin.{resource_context, grant}
use file_tag_system.Perm.Admin.Laws.{grant-denied}
use file_tag_system.Api.Admin.{grant_refusal}
use file_tag_system.Db.{Db}
use file_tag_system.Catalog.Lists.{Disk}
use file_tag_system.Api.{
  State, Principal, Reply, failed, Refusal, Flow, stop, go, ◌>>=◌, ◌>>◌, need, given, attempt,
  respond, forbidden, not_found_or, bad_id, bad_body, can, file_for, require_storage,
}
use file_tag_system.Api.Batches.{Target, BatchRequest, target_op, target_ops}
use file_tag_system.Api.Calls.Needs.{for_storage, for_file, to_grant, may_tag, permitted}

-- An error, and the state as it was.
abbrev pub Refused : State → Reply × State → Type 0
Refused s r = (status : ℕ) × (message : Text) × (r ≡ (failed status message, s))

abbrev pub Stops {ℓ} : {T : Type ℓ} → Flow T → Type ℓ
Stops m = (r : Refusal) × (m ≡ stop r)

pub respond-Stops : (s : State) (m : Flow (Reply × State)) → Stops m → Refused s (respond s m)
respond-Stops s m ((status, message), e) = (status, message, rw e refl)

pub >>=-Stops {ℓ κ} :
    {T : Type ℓ} {U : Type κ} (m : Flow T) (next : T → Flow U) → Stops m → Stops (m >>= next)
>>=-Stops m next (r, e) = (r, rw e refl)

pub go-Stops {ℓ κ} :
    {T : Type ℓ} {U : Type κ} (m : Flow T) (next : T → Flow U)
    → ((t : T) → m ≡ go t → Stops (next t))
    → Stops (m >>= next)
go-Stops (stop r) next h = (r, refl)
go-Stops (go t) next h = h t refl

pub need-Stops : (t : Bool) (r : Refusal) → t ≡ false → Stops (need t r)
need-Stops t r e = (r, rw e refl)

-- A guard on what a fallible call gave.
pub attempt-Stops {ℓ κ} :
    {T : Type ℓ} {U : Type κ} (reply : Error → Refusal) (o : Result T) (test : T → Bool)
    (next : T → Flow U)
    → elim o [ err e ↦ false | ok t ↦ test t ] ≡ false
    → ((t : T) → test t ≡ false → Stops (next t))
    → Stops (attempt reply o >>= next)
attempt-Stops reply (err e) test next h k = (reply e, refl)
attempt-Stops reply (ok t) test next h k = k t h

-- A guard on what a text or a body gave.
pub given-Stops {ℓ κ} :
    {T : Type ℓ} {U : Type κ} (r : Refusal) (o : Option T) (test : T → Bool) (next : T → Flow U)
    → elim o [ none ↦ false | some t ↦ test t ] ≡ false
    → ((t : T) → test t ≡ false → Stops (next t))
    → Stops (given o r >>= next)
given-Stops r none test next h k = (r, refl)
given-Stops r (some t) test next h k = k t h

pub guarded-Stops {ℓ} :
    {U : Type ℓ} (t : Bool) (r : Refusal) (m : Flow U) → t ≡ false → Stops (need t r >> m)
guarded-Stops t r m e = >>=-Stops (need t r) (λ _. m) (need-Stops t r e)

pub require_storage-Stops :
    (s : State) (p : Principal) (id : Option ℕ) (a : Action)
    → permitted s p (for_storage id a) ≡ false
    → Stops (require_storage s p id a)
unfolding permitted
require_storage-Stops s p none a e = (bad_id, refl)
require_storage-Stops s p (some sid) a e = guarded-Stops (can s p sid [] a) forbidden (go sid) e

pub file_for-Stops :
    (s : State) (p : Principal) (id : Option ℕ) (a : Action)
    → permitted s p (for_file id a) ≡ false
    → Stops (file_for s p id a)
unfolding permitted
file_for-Stops s p none a e = (bad_id, refl)
file_for-Stops s p (some id) a e =
    attempt-Stops not_found_or (Catalog.get_file s.db id) (λ f. can s p f.storage_id f.path a) _ e
      (λ f h. guarded-Stops (can s p f.storage_id f.path a) forbidden (go f) h)

-- The loop over the targets of a batch stops at one that may not be tagged, if not before.
pub target_ops-Stops :
    (disk : Disk) (s : State) (p : Principal) (req : BatchRequest) (ts : List Target)
    → all (may_tag s p) ts ≡ false
    → Stops (target_ops disk s p req ts)
unfolding target_ops
target_ops-Stops disk s p req [] e = cc
target_ops-Stops disk s p req (t ∷ ts) e = elim (Bool-cases (may_tag s p t)) [
  | inl y ↦
      go-Stops (target_op disk s p req t) _
        (λ op _. >>=-Stops _ _ (target_ops-Stops disk s p req ts (rw y at e)))
  | inr n ↦ >>=-Stops (target_op disk s p req t) _ (>>=-Stops _ _ (need-Stops _ forbidden n))
]

-- What is granted may be administered by the granter, or there is an error.
pub grant_call-Stops :
    (s : State) (p : Principal) (body : Option Permission)
    (next : Permission → ℕ × Db → Flow (Reply × State))
    → permitted s p (to_grant body) ≡ false
    → Stops (do
      row ← given body bad_body
      done ← attempt grant_refusal (grant s.db p.user_id p.groups row)
      next row done)
unfolding permitted
grant_call-Stops s p none next h = (bad_body, refl)
grant_call-Stops s p (some row) next h =
    let (e, same) = grant-denied s.db p.user_id p.groups row (resource_context s.db row) refl h in
    rw same (grant_refusal e, refl)
