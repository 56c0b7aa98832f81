-- ===== src/Examples/Perm.antt =====
-- Permissions, on the example: user 1 may read everywhere and administer, user 2 may not read the
-- pictures.
use file_tag_system.Prelude.{
  ℕ, List, [], ◌∷◌, true, false, Option, none, some, ◌≡◌, ◌≢◌, ◌↔◌, ◌⊎◌, inl, inr, refl, arith,
  if◌then◌else◌,
}
use file_tag_system.Text.{codes, starts_with}
use file_tag_system.Text.Like.Laws.{Plain, fold_text}
use file_tag_system.Models.{
  Action, read, write_meta, write_file, manage, admin, PermSet, Permission, ResourceType, system,
  storage, file, user, covers, has,
}
use file_tag_system.Models.Coverage.{Includes, covers-iff_Includes}
use file_tag_system.Result.{ok}
use file_tag_system.Db.{Db}
use file_tag_system.Perm.{Row, allow, undecided, resolve_action, check}
use file_tag_system.Perm.Walk.{Resolves}
use file_tag_system.Perm.Walk.Resolution.{resolve_action-Resolves}
use file_tag_system.Perm.Rules.{SameRows, check-SameRows, check_iff}
use file_tag_system.Perm.Resolve.{is_principal, row_of, joined_file, reached, resolve, fetch_rows}
use file_tag_system.Perm.Resolve.Chain.{reached-file}
use file_tag_system.Perm.Admin.{insert_permission, grant, resource_context}
use file_tag_system.Perm.Admin.Laws.{MayGrant, grant-iff_MayGrant, grant-others}
use file_tag_system.Perm.Admin.Escalation.{admin_only, grant-admin_only}
use file_tag_system.Examples.{bare, notes}

abbrev nothing : PermSet
nothing = record {
  read = false;
  write_meta = false;
  write_file = false;
  manage = false;
  admin = false;
}

abbrev reader : PermSet
reader = record nothing { read = true }

abbrev chief : PermSet
chief = record reader { admin = true }

abbrev everywhere : Row
everywhere = record { resource_type = storage; path = []; grant = reader; is_deny = false }

abbrev pictures : Row
pictures = record { resource_type = file; path = codes "pics/"; grant = reader; is_deny = true }

abbrev rows : List Row
rows = everywhere ∷ pictures ∷ []

covers-iff_Includes_example : (covers chief reader ≡ true) ↔ Includes chief reader
covers-iff_Includes_example = covers-iff_Includes chief reader

resolve_action-Resolves_example : Resolves rows read (resolve_action rows read)
resolve_action-Resolves_example = resolve_action-Resolves rows read

check_iff_example : (check rows read ≡ true) ↔ (
    Resolves rows read allow
    ⊎ (Resolves rows read undecided × (read ≢ admin) × Resolves rows admin allow))
check_iff_example = check_iff rows read

check-SameRows_example : check rows read ≡ check (pictures ∷ everywhere ∷ pictures ∷ []) read
check-SameRows_example = check-SameRows rows (pictures ∷ everywhere ∷ pictures ∷ []) read same
  where
    same : SameRows rows (pictures ∷ everywhere ∷ pictures ∷ [])
    same r = (
      (λ m. elim m [ inl e ↦ inr (inl e) | inr k ↦ elim k [ inl e ↦ inl e | inr n ↦ elim n [ ] ] ]),
      λ m. elim m [
        | inl e ↦ inr (inl e)
        | inr k ↦ elim k [
          | inl e ↦ inl e
          | inr j ↦ elim j [ inl e ↦ inr (inl e) | inr n ↦ elim n [ ] ]
        ]
      ],
    )

abbrev permission : ℕ → ResourceType → Option ℕ → PermSet → Permission
permission principal rt id set = record {
  id = 1;
  principal_type = user;
  principal_id = principal;
  resource_type = rt;
  resource_id = id;
  grant = set;
  is_deny = false;
}

abbrev office : Db
office = record bare { permissions = permission 1 system none chief ∷ [] }

-- User 1 gives user 2 the right to read the drive.
abbrev shared : Permission
shared = permission 2 storage (some 1) reader

chief_may : (a : Action) → has chief a ≡ true → resolve office 1 [] 1 [] a ≡ true
unfolding resolve has is_principal
chief_may read h = refl
chief_may write_meta h = cc
chief_may write_file h = cc
chief_may manage h = cc
chief_may admin h = refl

shared_context : resource_context office shared ≡ ok (1, [])
unfolding resource_context
shared_context = refl

grant-iff_MayGrant_example :
    (grant office 1 [] shared ≡ ok (insert_permission office shared))
    ↔ MayGrant office 1 [] shared 1 []
grant-iff_MayGrant_example = grant-iff_MayGrant office 1 [] shared 1 [] shared_context

grant-others_example :
    resolve (insert_permission office shared).1 3 [] 1 (codes "notes") read
    ≡ resolve office 3 [] 1 (codes "notes") read
grant-others_example =
    grant-others office 1 [] shared 1 [] shared_context (insert_permission office shared) 3 [] 1
      (codes "notes") read granted other
  where
    granted : grant office 1 [] shared ≡ ok (insert_permission office shared)
    granted =
        grant-iff_MayGrant_example.1
          (chief_may admin (unfold has in refl), inr (λ a h. chief_may a (within a h)))
      where
        within : (a : Action) → has reader a ≡ true → has chief a ≡ true
        within read h = unfold has in refl
        within write_meta h = unfold has in cc
        within write_file h = unfold has in cc
        within manage h = unfold has in cc
        within admin h = unfold has in refl

    other : is_principal 3 [] shared ≡ false
    other = unfold is_principal in refl

grant-admin_only_example :
    (grant office 1 [] (permission 2 storage (some 1) admin_only)
      ≡ ok (insert_permission office (permission 2 storage (some 1) admin_only)))
    × (resolve
          (insert_permission office (permission 2 storage (some 1) admin_only)).1
          2
          []
          1
          []
          write_file
        ≡ true)
grant-admin_only_example =
    grant-admin_only office 1 [] (permission 2 storage (some 1) admin_only) 1 [] write_file
      (unfold resource_context in refl) (chief_may admin (unfold has in refl)) refl refl refl
      (unfold fetch_rows is_principal in refl)

-- A right on the file "notes".
abbrev on_notes : Permission
on_notes = permission 2 file (some 1) reader

notes-Plain : Plain notes.path
notes-Plain = (
  omega arith,
  omega arith,
  (
    omega arith,
    omega arith,
    (omega arith, omega arith, (omega arith, omega arith, (omega arith, omega arith, tt))),
  ),
)

reached-file_example : reached bare.files 2 [] 1 (codes "NOTES/a") on_notes ≡ (
    if starts_with (fold_text notes.path) (fold_text (codes "NOTES/a"))
    then row_of on_notes notes.path ∷ []
    else [])
reached-file_example =
    reached-file bare 2 [] 1 (codes "NOTES/a") on_notes notes (unfold is_principal in refl) refl
      (unfold joined_file in refl) notes-Plain
