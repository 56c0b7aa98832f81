-- ===== src/Storage/Local/Containment.antt =====
-- Where `resolve` of server/internal/storage/local.go may lead.
use file_tag_system.Prelude.{
  ℕ, zero, suc, ◌≤◌, ◌<◌, Bool-cases, ◌⊎◌, inl, inr, [], ◌∷◌, ◌++◌, true, false, ◌≡◌, ◌≢◌, none,
  some, any, ltb, subst, arith,
}
use file_tag_system.Text.{Text, slash, len}
use file_tag_system.Text.Laws.{starts_with-elim, text_eq-false}
use file_tag_system.Result.{ok, ok_injective}
use file_tag_system.Tagging.Effective.{trim_slash}
use file_tag_system.Storage.Local.{
  FileSystem, LocalProvider, ancestor_ok, within_root, location, real_ok, resolve_path,
}

-- A location is inside a root if its path continues the root's behind a slash, or is the root.
abbrev pub Inside : Text → Text → Type 0
Inside root target =
    (rest : Text) × (target ++ slash ∷ [] ≡ (trim_slash root ++ slash ∷ []) ++ rest)

-- A path from the root of the file system, as `filepath.Abs` gives.
abbrev pub IsRooted : Text → Type 0
IsRooted t = (rest : Text) × (t ≡ slash ∷ rest)

-- What is documented of `filepath.Join` and `filepath.Dir` for such paths: both give such a path,
-- and the parent is shorter, but for the root of the file system, which is its own parent.
pub record PathLaws (fs : FileSystem) : Type 0 where
  pub join_rooted : (root t : Text) → IsRooted root → IsRooted (fs.join root t)
  pub dir_rooted : (t : Text) → IsRooted t → IsRooted (fs.dir t)
  pub dir_shorter : (t : Text) → IsRooted t → (fs.dir t ≡ t) ⊎ (len (fs.dir t) < len t)

-- `real` is what the symbolic links of the deepest path that exists lead to, from this path up by
-- `filepath.Dir`, where no path on the way is shorter than the provider's root.
pub data Ascends (fs : FileSystem) (p : LocalProvider) (real : Text) : Text → Type 0 where
  here :
      {anc : Text} → len p.root ≤ len anc → fs.eval_symlinks anc ≡ some real → Ascends fs p real anc
  up :
      {anc : Text}
      → len p.root ≤ len anc
      → fs.eval_symlinks anc ≡ none
      → fs.dir anc ≢ anc
      → Ascends fs p real (fs.dir anc)
      → Ascends fs p real anc

-- Where a location leads: to what its symbolic links resolve to, or if it does not exist, to what
-- those of its deepest parent do that exists.
pub data Leads (fs : FileSystem) (p : LocalProvider) (abs real : Text) : Type 0 where
  exists : fs.eval_symlinks abs ≡ some real → Leads fs p abs real
  missing : fs.eval_symlinks abs ≡ none → Ascends fs p real (fs.dir abs) → Leads fs p abs real

within_root-Inside : (root target : Text) → within_root root target ≡ true → Inside root target
unfolding within_root
within_root-Inside root target h = starts_with-elim _ _ h

resolve_path-checks :
    (fs : FileSystem) (p : LocalProvider) (rel abs : Text)
    → resolve_path fs p rel ≡ ok abs
    → (location fs p rel ≡ abs)
      × (within_root p.root abs ≡ true)
      × (real_ok fs p abs (fs.eval_symlinks abs) ≡ true)
unfolding resolve_path
resolve_path-checks fs p rel abs h =
    let loc = location fs p rel in
    elim (Bool-cases (any (λ c. ltb c 0x20) rel)) [
      | inl y ↦ cc (rw y at h)
      | inr n ↦ elim (Bool-cases (within_root p.root loc)) [
        | inr out ↦ cc (rw (n, out) at h)
        | inl inside ↦ elim (Bool-cases (real_ok fs p loc (fs.eval_symlinks loc))) [
          | inr out ↦ cc (rw (n, inside, out) at h)
          | inl real ↦
              let same : loc ≡ abs = ok_injective (rw (n, inside, real) at h) in
              (
                same,
                subst (λ t. within_root p.root t ≡ true) same inside,
                subst (λ t. real_ok fs p t (fs.eval_symlinks t) ≡ true) same real,
              )
        ]
      ]
    ]

module _ (fs : FileSystem) (laws : PathLaws fs) (p : LocalProvider) (real : Text) where
  -- The search looks at the deepest parent that exists: its fuel does not end before.
  ancestor_ok-within :
      (n : ℕ) (anc : Text)
      → IsRooted anc
      → len anc < n
      → ancestor_ok fs p n anc ≡ true
      → Ascends fs p real anc
      → within_root p.real_root real ≡ true
  unfolding ancestor_ok
  ancestor_ok-within zero anc r b h way = absurd (omega (arith, b))
  ancestor_ok-within (suc n) anc r b h (here long e) =
      let not_shorter : ltb (len anc) (len p.root) ≡ false = ground arith in
      rw (not_shorter, e) at h
  ancestor_ok-within (suc n) anc r b h (up long e apart way) =
      let not_shorter : ltb (len anc) (len p.root) ≡ false = ground arith in
      let other = text_eq-false (fs.dir anc) anc apart in
      let less : len (fs.dir anc) < n = elim (laws.dir_shorter anc r) [
        | inl same ↦ absurd (apart same)
        | inr shorter ↦ omega (arith, shorter, b)
      ] in
      ancestor_ok-within n (fs.dir anc) (laws.dir_rooted anc r) less
        (rw (not_shorter, e, other) at h) way

  real_ok-within :
      (abs : Text)
      → IsRooted abs
      → real_ok fs p abs (fs.eval_symlinks abs) ≡ true
      → Leads fs p abs real
      → within_root p.real_root real ≡ true
  unfolding real_ok
  real_ok-within abs r h (exists e) = rw e at h
  real_ok-within abs r h (missing e way) =
      let near : len (fs.dir abs) < suc (len abs) = elim (laws.dir_shorter abs r) [
        | inl same ↦ rw same (omega arith)
        | inr shorter ↦ omega (arith, shorter)
      ] in
      ancestor_ok-within (suc (len abs)) (fs.dir abs) (laws.dir_rooted abs r) near (rw e at h) way

location-IsRooted :
    (fs : FileSystem) (laws : PathLaws fs) (p : LocalProvider) (rel abs : Text)
    → IsRooted p.root
    → location fs p rel ≡ abs
    → IsRooted abs
unfolding location
location-IsRooted fs laws p rel abs r e = subst IsRooted e (laws.join_rooted p.root _ r)

-- For a provider whose root is an absolute path: a path that `resolve` lets through is inside the
-- root as it is written. What the symbolic links of the location lead to is inside the real root;
-- and if the location does not exist, what those of its deepest parent that exists lead to is, as
-- far as no path on the way up to that parent is shorter than the root.
pub resolve_path-Inside :
    (fs : FileSystem) (p : LocalProvider) (rel abs : Text)
    → PathLaws fs
    → IsRooted p.root
    → resolve_path fs p rel ≡ ok abs
    → Inside p.root abs × ((real : Text) → Leads fs p abs real → Inside p.real_root real)
resolve_path-Inside fs p rel abs laws r h =
    let (placed, inside, links) = resolve_path-checks fs p rel abs h in
    (
      within_root-Inside p.root abs inside,
      λ real way. within_root-Inside p.real_root real (
          real_ok-within fs laws p real abs (location-IsRooted fs laws p rel abs r placed) links
            way),
    )
