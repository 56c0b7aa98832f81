-- ===== src/Api/Previews/Cache.antt =====
-- `handleThumbnail` of server/internal/api/handlers_preview.go: what it may change.
use file_tag_system.Prelude.{
  ℕ, List, [], ◌∷◌, Bool, true, false, Option, none, some, map, ◌==◌, ◌≡◌, refl, ap, inl, inr,
  Bool-cases, if◌then◌else◌,
}
use file_tag_system.Text.{Text, codes, text_eq}
use file_tag_system.Models.{read}
use file_tag_system.Result.{Result, ok, err, not_found, guard-eq-ok, ok_injective}
use file_tag_system.Db.{Db, File}
use file_tag_system.Db.Cascade.{has_file}
use file_tag_system.Catalog.{thumb, set_thumbnail_by_id}
use file_tag_system.Catalog.Lists.{provider}
use file_tag_system.Api.{
  State, Principal, Reply, Flow, stop, go, respond, need, given, attempt, ◌>>=◌, ◌>>◌, always,
  file_for, missing, internal,
}
use file_tag_system.Api.Previews.{
  Viewer, kind_for_path, cache_path, keep_thumb, make_thumb, cached, handle_thumbnail,
}

abbrev no_thumb : File → File
no_thumb f = record f { thumbnail_path = none }

abbrev pub no_thumbs : Db → Db
no_thumbs db = record db { files = map no_thumb db.files }

-- The state but for thumbnails: with an empty cache, and no path of a thumbnail in a row.
abbrev pub thumbless : State → State
thumbless s = record s { db = no_thumbs s.db; cache = λ path. none }

no_thumb-thumb : (id : ℕ) (path : Text) (f : File) → no_thumb (thumb id path f) ≡ no_thumb f
no_thumb-thumb id path f = elim (Bool-cases (f.id == id)) [ inl y ↦ rw y refl | inr n ↦ rw n refl ]

map-thumb :
    (id : ℕ) (path : Text) (fs : List File)
    → map no_thumb (map (thumb id path) fs) ≡ map no_thumb fs
map-thumb id path [] = refl
map-thumb id path (f ∷ fs) = rw (no_thumb-thumb id path f, map-thumb id path fs) refl

set_thumbnail_by_id-no_thumbs :
    (db db' : Db) (id : ℕ) (path : Text)
    → set_thumbnail_by_id db id path ≡ ok db'
    → no_thumbs db' ≡ no_thumbs db
unfolding set_thumbnail_by_id
set_thumbnail_by_id-no_thumbs db db' id path h =
    let (_, done) = guard-eq-ok (has_file db.files id) not_found _ h in
    rw (← ok_injective done) (ap (λ fs. record db { files = fs }) (map-thumb id path db.files))

keep_thumb-thumbless :
    (s : State) (id : ℕ) (path image : Text) (r : Result Db)
    → set_thumbnail_by_id s.db id path ≡ r
    → thumbless (keep_thumb s path image r) ≡ thumbless s
unfolding keep_thumb
keep_thumb-thumbless s id path image (err e) h = refl
keep_thumb-thumbless s id path image (ok db) h =
    ap (λ (d : Db). record s { db = d; cache = λ path. none })
      (set_thumbnail_by_id-no_thumbs s.db db id path h)

-- A flow that changes thumbnails at most.
abbrev Keeps : State → Flow (Reply × State) → Type 0
Keeps s m = thumbless (respond s m).1 ≡ thumbless s

need-Keeps :
    (s : State) (r : ℕ × Text) (m : Flow (Reply × State))
    → Keeps s m
    → (b : Bool) → Keeps s (need b r >> m)
need-Keeps s r m k true = k
need-Keeps s r m k false = refl

given-Keeps {ℓ} :
    {T : Type ℓ} (s : State) (r : ℕ × Text) (next : T → Flow (Reply × State))
    → ((t : T) → Keeps s (next t))
    → (o : Option T) → Keeps s (given o r >>= next)
given-Keeps s r next k none = refl
given-Keeps s r next k (some t) = k t

attempt-Keeps {ℓ} :
    {T : Type ℓ} (s : State) (r : ℕ × Text) (next : T → Flow (Reply × State))
    → ((t : T) → Keeps s (next t))
    → (o : Result T) → Keeps s (attempt (always r) o >>= next)
attempt-Keeps s r next k (err e) = refl
attempt-Keeps s r next k (ok t) = k t

make_thumb-Keeps : (v : Viewer) (s : State) (f : File) → Keeps s (make_thumb v s f)
unfolding make_thumb
make_thumb-Keeps v s f =
    need-Keeps s _ _
      (attempt-Keeps s missing _
        (λ root.
          given-Keeps s missing _
            (λ opened.
              given-Keeps s internal _
                (λ image.
                  given-Keeps s _ _ (λ made. written made (v.can_write (cache_path f)))
                    (v.generate image))
                opened.head)
            (v.open_file root f.path))
        (provider s.db f.storage_id))
      (text_eq (kind_for_path v f.path).kind (codes "image"))
  where
    written :
        (made : Text) (b : Bool)
        → thumbless (
            if b
            then keep_thumb s (cache_path f) made (set_thumbnail_by_id s.db f.id (cache_path f))
            else s)
          ≡ thumbless s
    written made true = keep_thumb-thumbless s f.id (cache_path f) made _ refl
    written made false = refl

-- Whatever becomes of a request for a thumbnail, the state is as before but for thumbnails.
pub handle_thumbnail-thumbless :
    (v : Viewer) (s : State) (p : Principal) (id : Option ℕ)
    → thumbless (handle_thumbnail v s p id).1 ≡ thumbless s
unfolding handle_thumbnail cached
handle_thumbnail-thumbless v s p id = by_file (file_for s p id read)
  where
    by_cache : (f : File) (o : Option Text) → Keeps s (cached v s f o)
    by_cache f none = make_thumb-Keeps v s f
    by_cache f (some image) = refl

    by_file : (m : Flow File) → Keeps s (m >>= λ f. cached v s f (s.cache (cache_path f)))
    by_file (stop r) = refl
    by_file (go f) = by_cache f (s.cache (cache_path f))
