-- ===== src/Catalog/Cleanup.antt =====
-- `DeleteStorage` of server/internal/catalog/catalog.go: files and permissions.
use file_tag_system.Prelude.{
  ℕ, List, [], ◌∷◌, Bool, true, ◌&&◌, ◌==◌, ◌≡◌, ◌≢◌, ◌↔◌, inl, inr, refl, ap, arith, Option, none,
  some, In, any, any-true, any-elim, Bool-cases, if◌then◌else◌, select, In-select, In-of_select,
  not, is_some_of, ==_refl, ==_iff,
}
use file_tag_system.Models.{ResourceType, system, storage, file, Permission}
use file_tag_system.Result.{ok, not_found, ok_injective, guard-eq-ok}
use file_tag_system.Db.{StorageProvider, File, Db}
use file_tag_system.Db.Cascade.{has_storage, cascade}
use file_tag_system.Db.Cascade.Laws.{files-cascade, permissions-cascade}
use file_tag_system.Catalog.{on_file, on_storage, is_of_storage, delete_storage}

-- A permission names the storage or a file in it.
pub data NamesStorage (files : List File) (id : ℕ) (p : Permission) : Type 0 where
  the_storage : p.resource_type ≡ storage → p.resource_id ≡ some id → NamesStorage files id p
  a_file :
      (f : File)
      → In f files
      → f.storage_id ≡ id
      → p.resource_type ≡ file
      → p.resource_id ≡ some f.id
      → NamesStorage files id p

is_some_of-some : (o : Option ℕ) (n : ℕ) → is_some_of o n ≡ true → o ≡ some n
is_some_of-some none n h = cc
is_some_of-some (some m) n h = ap some ((==_iff m n).0 h)

is_of_storage_complete :
    (files : List File) (id : ℕ) (p : Permission)
    → NamesStorage files id p
    → is_of_storage files id p ≡ true
unfolding is_of_storage
is_of_storage_complete files id p (the_storage t r) = rw (t, r, ==_refl id)
is_of_storage_complete files id p (a_file f m s t r) =
    let hit =
      any-true (λ (g : File). g.storage_id == id && is_some_of (some f.id) g.id) f files m
        (rw s (rw (==_refl id, ==_refl f.id))) in
    rw (t, r, hit)

is_of_storage_sound :
    (files : List File) (id : ℕ) (p : Permission)
    → is_of_storage files id p ≡ true
    → NamesStorage files id p
unfolding is_of_storage
is_of_storage_sound files id p h = by_type p.resource_type refl h
  where
    by_type :
        (rt : ResourceType)
        → p.resource_type ≡ rt
        → (if on_file files id rt p.resource_id then true else on_storage id rt p.resource_id)
          ≡ true
        → NamesStorage files id p
    by_type system t k = cc
    by_type storage t k = the_storage t (is_some_of-some p.resource_id id k)
    by_type file t k =
        let hit : any (λ (f : File). f.storage_id == id && is_some_of p.resource_id f.id) files
            ≡ true =
          ground arith in
        let (f, m, e) =
          any-elim (λ (f : File). f.storage_id == id && is_some_of p.resource_id f.id) files hit in
        a_file f m (ground arith) t (is_some_of-some p.resource_id f.id (ground arith))
    by_type (ResourceType.other x) t k = cc

has_storage-rest :
    (sps : List StorageProvider) (id sid : ℕ)
    → has_storage (select (λ (s : StorageProvider). not (s.id == id)) sps) sid
      ≡ (has_storage sps sid && not (sid == id))
has_storage-rest [] id sid = refl
has_storage-rest (s ∷ sps) id sid = ground (arith, has_storage-rest sps id sid)

-- `DeleteStorage` removes exactly the permissions that name the storage or one of its files, and
-- exactly the files of the storage among those whose storage is there.
pub delete_storage-cleanup :
    (db db' : Db) (id : ℕ)
    → delete_storage db id ≡ ok db'
    → ((p : Permission)
        → In p db'.permissions ↔ (In p db.permissions × ¬ NamesStorage db.files id p))
      × ((f : File)
          → In f db'.files ↔ (
              In f db.files
              × (has_storage db.storage_providers f.storage_id ≡ true)
              × (f.storage_id ≢ id)))
unfolding delete_storage
delete_storage-cleanup db db' id h =
    let (_, done) = guard-eq-ok (has_storage db.storage_providers id) not_found _ h in
    rw (← ok_injective done) (perms, files)
  where
    gone : Permission → Bool
    gone p = not (is_of_storage db.files id p)

    mid : Db
    mid = record db {
      permissions = select (λ (p : Permission). not (is_of_storage db.files id p)) db.permissions;
      storage_providers = select (λ (s : StorageProvider). not (s.id == id)) db.storage_providers;
    }

    perms :
        (p : Permission)
        → In p (cascade mid).permissions ↔ (In p db.permissions × ¬ NamesStorage db.files id p)
    perms p = (
      (λ m.
          let (k, t) = In-of_select gone p db.permissions (rw permissions-cascade at m) in
          (k, λ n. cc (t, ap not (is_of_storage_complete db.files id p n)))),
      λ (k, n). rw permissions-cascade (
          In-select gone p db.permissions k (elim (Bool-cases (is_of_storage db.files id p)) [
            | inl y ↦ absurd (n (is_of_storage_sound db.files id p y))
            | inr f ↦ rw f
          ])),
    )

    files :
        (f : File)
        → In f (cascade mid).files ↔ (
            In f db.files
            × (has_storage db.storage_providers f.storage_id ≡ true)
            × (f.storage_id ≢ id))
    files f = (
      (λ m.
          let (k, t) =
            In-of_select (λ (x : File). has_storage mid.storage_providers x.storage_id) f db.files
              (rw files-cascade at m) in
          (
            k,
            ground (arith, has_storage-rest db.storage_providers id f.storage_id),
            ground (arith, has_storage-rest db.storage_providers id f.storage_id),
          )),
      λ (k, s, n). rw files-cascade (
          In-select (λ (x : File). has_storage mid.storage_providers x.storage_id) f db.files k
            (ground (arith, has_storage-rest db.storage_providers id f.storage_id))),
    )
