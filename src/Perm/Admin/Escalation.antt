-- ===== src/Perm/Admin/Escalation.antt =====
-- `Grant` of server/internal/perm/admin.go: the resource a row is granted on, and rows with `admin`.
use file_tag_system.Prelude.{
  ℕ, List, [], ◌∷◌, Bool, true, false, ◌≡◌, ◌≢◌, ◌⊎◌, inl, inr, refl, ap, ◌∙◌, subst, fun_ext,
  arith, In, Option, none, some, find, find-stricter, ==_refl, is_some_of, ◌==◌, ◌&&◌,
}
use file_tag_system.Text.{Text}
use file_tag_system.Models.{
  Action, read, write_meta, write_file, manage, admin, ResourceType, system, storage, file, user,
  PermSet, Permission, has,
}
use file_tag_system.Result.{Result, ok}
use file_tag_system.Db.{Db, File}
use file_tag_system.Perm.{Row, check, more_specific, undecided, allow}
use file_tag_system.Perm.Order.{more_specific_refl}
use file_tag_system.Perm.Walk.{Resolves, silent, granted}
use file_tag_system.Perm.Rules.{check_iff}
use file_tag_system.Perm.Resolve.{is_principal, row_of, joined_file, reached, fetch_rows, resolve}
use file_tag_system.Perm.Resolve.Chain.{
  fetch_rows-add, reached-system, reached-storage, reached-own_file,
}
use file_tag_system.Perm.Admin.{
  stored, insert_permission, resource_context, context_of, storage_context, file_context, of_file,
  grant,
}
use file_tag_system.Perm.Admin.Laws.{grant-iff_MayGrant}

-- The row reaches its own resource.
abbrev pub ReachesSelf : Db → ℕ → List ℕ → Permission → ℕ → Text → Type 0
ReachesSelf db u gs p sid path = reached db.files u gs sid path p ≡ row_of p path ∷ []

joined-of_file :
    (db : Db) (p : Permission) (id sid : ℕ) (path : Text) (o : Option File)
    → p.resource_id ≡ some id
    → find (λ (f : File). f.id == id) db.files ≡ o
    → of_file o ≡ ok (sid, path)
    → (f : File) × (joined_file db.files sid p ≡ some f) × (f.path ≡ path)
unfolding of_file joined_file
joined-of_file db p id sid path none e k h = absurd (ground arith)
joined-of_file db p id sid path (some f) e k h = (
  f,
  ap (λ (t : File → Bool). find t db.files) same_test
      ∙ find-stricter (λ (f : File). f.id == id) (λ (f : File). f.storage_id == sid) f db.files k
          (ground arith),
  ground arith,
)
  where
    same_test :
        ◌≡◌ {A = File → Bool}
          (λ f. is_some_of p.resource_id f.id && f.storage_id == sid)
          (λ f. f.id == id && f.storage_id == sid)
    same_test = fun_ext (λ f. ground (arith, ap (λ o. is_some_of o f.id) e))

-- A row that is inserted reaches the resource for which it was granted.
pub reached-own_context :
    (db : Db) (u : ℕ) (gs : List ℕ) (p : Permission) (sid : ℕ) (path : Text)
    → is_principal u gs p ≡ true
    → resource_context db p ≡ ok (sid, path)
    → ReachesSelf db u gs p sid path
unfolding resource_context
reached-own_context db u gs p sid path mine h = by_type p.resource_type refl h
  where
    by_id :
        (o : Option ℕ)
        → p.resource_id ≡ o
        → p.resource_type ≡ file
        → file_context db o ≡ ok (sid, path)
        → ReachesSelf db u gs p sid path
    by_id none e r k = absurd (ground arith)
    by_id (some id) e r k =
        let (f, j, same) =
          joined-of_file db p id sid path (find (λ (f : File). f.id == id) db.files) e refl k in
        subst (ReachesSelf db u gs p sid) same (reached-own_file db.files u gs sid p mine f r j)

    by_storage :
        (o : Option ℕ)
        → p.resource_id ≡ o
        → p.resource_type ≡ storage
        → storage_context o ≡ ok (sid, path)
        → ReachesSelf db u gs p sid path
    by_storage none e r k = absurd (ground arith)
    by_storage (some id) e r k =
        let i : id ≡ sid = ground arith in
        let n : [] ≡ path = ground arith in
        subst (ReachesSelf db u gs p sid) n
          (reached-storage db.files u gs sid p mine [] r (e ∙ ap some i))

    by_type :
        (rt : ResourceType)
        → p.resource_type ≡ rt
        → context_of db rt p.resource_id ≡ ok (sid, path)
        → ReachesSelf db u gs p sid path
    by_type system r k =
        let n : [] ≡ path = ground arith in
        subst (ReachesSelf db u gs p sid) n (reached-system db.files u gs sid p mine [] r)
    by_type storage r k = by_storage p.resource_id refl r k
    by_type file r k = by_id p.resource_id refl r k
    by_type (ResourceType.other t) r k = absurd (ground arith)

abbrev pub admin_only : PermSet
admin_only = record {
  read = false;
  write_meta = false;
  write_file = false;
  manage = false;
  admin = true;
}

-- One grant of `admin` and nothing else permits every action.
pub check-admin_only :
    (r : Row) (a : Action) → r.grant ≡ admin_only → r.is_deny ≡ false → check (r ∷ []) a ≡ true
check-admin_only r a g d = (check_iff (r ∷ []) a).1 (cases a)
  where
    grants_admin : has r.grant admin ≡ true
    grants_admin = rw g (unfold has in refl)

    allowed : Resolves (r ∷ []) admin allow
    allowed =
        granted r (inl refl) grants_admin only
          (λ s m _ _. elim m [ inl e ↦ rw e d | inr k ↦ elim k [ ] ])
      where
        only : (s : Row) → In s (r ∷ []) → has s.grant admin ≡ true → more_specific s r ≡ false
        only s (inl e) h = rw e (more_specific_refl r)
        only s (inr m) h = elim m [ ]

    quiet : (b : Action) → has admin_only b ≡ false → Resolves (r ∷ []) b undecided
    quiet b n = silent (λ s m. elim m [ inl e ↦ rw (e, g) n | inr k ↦ elim k [ ] ])

    cases :
        (b : Action)
        → Resolves (r ∷ []) b allow
          ⊎ (Resolves (r ∷ []) b undecided × (b ≢ admin) × Resolves (r ∷ []) admin allow)
    cases admin = inl allowed
    cases read = inr (quiet read (unfold has in refl), (λ e. cc), allowed)
    cases write_meta = inr (quiet write_meta (unfold has in refl), (λ e. cc), allowed)
    cases write_file = inr (quiet write_file (unfold has in refl), (λ e. cc), allowed)
    cases manage = inr (quiet manage (unfold has in refl), (λ e. cc), allowed)

own_principal : (p : Permission) → p.principal_type ≡ user → is_principal p.principal_id [] p ≡ true
unfolding is_principal
own_principal p who = ground (arith, ==_refl p.principal_id)

stored-context :
    (db : Db) (p : Permission) (c : Result (ℕ × Text))
    → resource_context db p ≡ c
    → resource_context db (stored db p) ≡ c
unfolding resource_context
stored-context db p c h = h

only_row :
    (db : Db) (p : Permission) (sid : ℕ) (path : Text)
    → resource_context db p ≡ ok (sid, path)
    → p.principal_type ≡ user
    → fetch_rows db p.principal_id [] sid path ≡ []
    → fetch_rows (insert_permission db p).1 p.principal_id [] sid path
      ≡ row_of (stored db p) path ∷ []
unfolding insert_permission
only_row db p sid path here who fresh =
    fetch_rows-add db p.principal_id [] sid path (stored db p)
    ∙ rw fresh (
        reached-own_context db p.principal_id [] (stored db p) sid path
          (own_principal (stored db p) who) (stored-context db p _ here))

-- A granter who may administer a resource can give any other user, of whom no row is known there,
-- `admin` alone; the grant succeeds, and that user may then do every action there, also those that
-- are denied to the granter.
pub grant-admin_only :
    (db : Db) (granter : ℕ) (groups : List ℕ) (p : Permission) (sid : ℕ) (path : Text) (a : Action)
    → resource_context db p ≡ ok (sid, path)
    → resolve db granter groups sid path admin ≡ true
    → p.principal_type ≡ user
    → p.is_deny ≡ false
    → p.grant ≡ admin_only
    → fetch_rows db p.principal_id [] sid path ≡ []
    → (grant db granter groups p ≡ ok (insert_permission db p))
      × (resolve (insert_permission db p).1 p.principal_id [] sid path a ≡ true)
unfolding resolve
grant-admin_only db granter groups p sid path a here may who give what fresh =
    ((grant-iff_MayGrant db granter groups p sid path here).1 (may, inr within), after)
  where
    within : (b : Action) → has p.grant b ≡ true → resolve db granter groups sid path b ≡ true
    within admin h = may
    within read h = absurd (unfold has in ground (arith, ap (λ (s : PermSet). s.read) what))
    within write_meta h =
        absurd (unfold has in ground (arith, ap (λ (s : PermSet). s.write_meta) what))
    within write_file h =
        absurd (unfold has in ground (arith, ap (λ (s : PermSet). s.write_file) what))
    within manage h = absurd (unfold has in ground (arith, ap (λ (s : PermSet). s.manage) what))

    after : check (fetch_rows (insert_permission db p).1 p.principal_id [] sid path) a ≡ true
    after = rw (only_row db p sid path here who fresh) (
        check-admin_only (row_of (stored db p) path) a (unfold row_of in what)
          (unfold row_of in give))
