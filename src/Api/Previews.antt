-- ===== src/Api/Previews.antt =====
-- server/internal/api/preview.go, and of handlers_files.go and handlers_preview.go the handlers of
-- previews, of the bytes of a file and of thumbnails. `cache` of the server's state is the directory
-- of thumbnails below DataDir, by path. The directory `thumbnails` itself is not seen.
pub mod Cache
use file_tag_system.Prelude.{
  ℕ, List, [], ◌∷◌, ◌++◌, Bool, true, false, ◌&&◌, ◌||◌, Option, none, some, any, find,
  if◌then◌else◌,
}
use file_tag_system.Text.{Text, codes, slash, text_eq}
use file_tag_system.Text.Decimal.{format_int}
use file_tag_system.Models.{read}
use file_tag_system.Result.{Result, ok, err}
use file_tag_system.Db.{Db, File}
use file_tag_system.Catalog.{set_thumbnail_by_id}
use file_tag_system.Catalog.Lists.{provider}
use file_tag_system.Storage.Local.{FileSystem, new_local_provider, resolve_path}
use file_tag_system.Auth.Limiter.{store}
use file_tag_system.Api.{
  State, Principal, Reply, answered, Refusal, Flow, go, respond, need, given, attempt, ◌>>=◌, ◌>>◌,
  file_for, missing, internal, not_found_or, always, thumb_image, preview_body, raw_content,
}

-- `previewKind`
pub record PreviewKind : Type 0 where
  pub kind : Text
  pub mime : Text
  pub streamable : Bool

pub record KindRow : Type 0 where
  pub ext : Text
  pub shown : PreviewKind

abbrev kind_row : Text → Text → Text → Bool → KindRow
kind_row ext kind mime streamable = record {
  ext = ext;
  shown = record { kind = kind; mime = mime; streamable = streamable };
}

-- `extKinds`
ext_kinds : List KindRow
ext_kinds =
    kind_row (codes ".jpg") (codes "image") (codes "image/jpeg") false
    ∷ kind_row (codes ".jpeg") (codes "image") (codes "image/jpeg") false
    ∷ kind_row (codes ".png") (codes "image") (codes "image/png") false
    ∷ kind_row (codes ".gif") (codes "image") (codes "image/gif") false
    ∷ kind_row (codes ".webp") (codes "image") (codes "image/webp") false
    ∷ kind_row (codes ".avif") (codes "image") (codes "image/avif") false
    ∷ kind_row (codes ".bmp") (codes "image") (codes "image/bmp") false
    ∷ kind_row (codes ".mp4") (codes "video") (codes "video/mp4") true
    ∷ kind_row (codes ".webm") (codes "video") (codes "video/webm") true
    ∷ kind_row (codes ".mov") (codes "video") (codes "video/quicktime") true
    ∷ kind_row (codes ".m4v") (codes "video") (codes "video/x-m4v") true
    ∷ kind_row (codes ".mp3") (codes "audio") (codes "audio/mpeg") true
    ∷ kind_row (codes ".aac") (codes "audio") (codes "audio/aac") true
    ∷ kind_row (codes ".m4a") (codes "audio") (codes "audio/mp4") true
    ∷ kind_row (codes ".ogg") (codes "audio") (codes "audio/ogg") true
    ∷ kind_row (codes ".opus") (codes "audio") (codes "audio/opus") true
    ∷ kind_row (codes ".wav") (codes "audio") (codes "audio/wav") true
    ∷ kind_row (codes ".flac") (codes "audio") (codes "audio/flac") true
    ∷ kind_row (codes ".txt") (codes "text") (codes "text/plain; charset=utf-8") false
    ∷ kind_row (codes ".md") (codes "text") (codes "text/plain; charset=utf-8") false
    ∷ kind_row (codes ".csv") (codes "text") (codes "text/plain; charset=utf-8") false
    ∷ kind_row (codes ".log") (codes "text") (codes "text/plain; charset=utf-8") false
    ∷ kind_row (codes ".json") (codes "text") (codes "text/plain; charset=utf-8") false
    ∷ kind_row (codes ".yaml") (codes "text") (codes "text/plain; charset=utf-8") false
    ∷ kind_row (codes ".yml") (codes "text") (codes "text/plain; charset=utf-8") false
    ∷ kind_row (codes ".go") (codes "text") (codes "text/plain; charset=utf-8") false
    ∷ kind_row (codes ".js") (codes "text") (codes "text/plain; charset=utf-8") false
    ∷ kind_row (codes ".ts") (codes "text") (codes "text/plain; charset=utf-8") false
    ∷ kind_row (codes ".rs") (codes "text") (codes "text/plain; charset=utf-8") false
    ∷ kind_row (codes ".py") (codes "text") (codes "text/plain; charset=utf-8") false
    ∷ kind_row (codes ".docx") (codes "office")
        (codes "application/vnd.openxmlformats-officedocument.wordprocessingml.document") false
    ∷ kind_row (codes ".xlsx") (codes "office")
        (codes "application/vnd.openxmlformats-officedocument.spreadsheetml.sheet") false
    ∷ kind_row (codes ".pptx") (codes "office")
        (codes "application/vnd.openxmlformats-officedocument.presentationml.presentation") false
    ∷ kind_row (codes ".odt") (codes "office") (codes "application/vnd.oasis.opendocument.text")
        false
    ∷ kind_row (codes ".ods") (codes "office")
        (codes "application/vnd.oasis.opendocument.spreadsheet") false
    ∷ kind_row (codes ".odp") (codes "office")
        (codes "application/vnd.oasis.opendocument.presentation") false
    ∷ kind_row (codes ".pdf") (codes "pdf") (codes "application/pdf") false
    ∷ kind_row (codes ".zip") (codes "archive") (codes "application/zip") false
    ∷ kind_row (codes ".7z") (codes "archive") (codes "application/x-7z-compressed") false
    ∷ kind_row (codes ".rar") (codes "archive") (codes "application/vnd.rar") false
    ∷ kind_row (codes ".tar") (codes "archive") (codes "application/x-tar") false
    ∷ kind_row (codes ".gz") (codes "archive") (codes "application/gzip") false
    ∷ kind_row (codes ".tgz") (codes "archive") (codes "application/gzip") false
    ∷ []

-- What Go's libraries give: `ToLower` of the extension, whether it is `.zip` under `EqualFold`,
-- an open file of a provider below its root, a thumbnail of image data, and whether the cache can
-- be written at a path.
-- `head` is what `ReadAll` gives up to thumbInputLimit, or `none` for its error.
pub record Opened : Type 0 where
  pub content : Text
  pub head : Option Text

pub record Viewer : Type 0 where
  pub lower_ext : Text → Text
  pub is_zip : Text → Bool
  pub open_file : Text → Text → Option Opened
  pub generate : Text → Option Text
  pub can_write : Text → Bool

opened_at : (Text → Option Opened) → Result Text → Option Opened
opened_at open_at (err e) = none
opened_at open_at (ok place) = open_at place

-- `open_file` of the local provider (`Open` of storage/local.go), given what `os.Open` gives at a
-- place of the disk, where a directory counts as an error.
unfoldable pub open_local : FileSystem → (Text → Option Opened) → Text → Text → Option Opened
unfolding opened_at
open_local fs open_at root rel =
    opened_at open_at (resolve_path fs (new_local_provider fs root) rel)

kind_of_row : Option KindRow → PreviewKind
kind_of_row none = record {
  kind = codes "unknown";
  mime = codes "application/octet-stream";
  streamable = false;
}
kind_of_row (some r) = r.shown

-- `kindForPath`
unfoldable pub kind_for_path : Viewer → Text → PreviewKind
unfolding kind_of_row ext_kinds
kind_for_path v path =
    kind_of_row (find (λ (r : KindRow). text_eq r.ext (v.lower_ext path)) ext_kinds)

abbrev executable_exts : List Text
executable_exts = codes ".html" ∷ codes ".htm" ∷ codes ".svg" ∷ codes ".xml" ∷ codes ".xhtml" ∷ []

-- `safeContentType`
unfoldable pub safe_content_type : Viewer → Text → Text
unfolding kind_for_path
safe_content_type v path =
    if any (λ e. text_eq e (v.lower_ext path)) executable_exts
    then codes "text/plain; charset=utf-8"
    else (kind_for_path v path).mime

size_of_file : Option ℕ → ℕ
size_of_file none = 0
size_of_file (some n) = n

-- `handlePreview`
unfoldable pub handle_preview : Viewer → State → Principal → Option ℕ → Reply × State
unfolding kind_for_path size_of_file
handle_preview v s p id = respond s do
  f ← file_for s p id read
  let k = kind_for_path v f.path
  go (
    answered 200 (
        preview_body k.kind k.mime (size_of_file f.size_bytes) k.streamable
          (text_eq k.kind (codes "archive") && v.is_zip f.path)),
    s,
  )

-- `handleRaw`, for a local provider, whose `Link` never redirects.
unfoldable pub handle_raw : Viewer → State → Principal → Option ℕ → Reply × State
unfolding safe_content_type
handle_raw v s p id = respond s do
  f ← file_for s p id read
  root ← attempt not_found_or (provider s.db f.storage_id)
  opened ← given (v.open_file root f.path) missing
  go (answered 200 (raw_content (safe_content_type v f.path) opened.content), s)

-- `cacheRel`
abbrev pub cache_path : File → Text
cache_path f =
    codes "thumbnails/" ++ format_int f.storage_id ++ slash ∷ format_int f.id ++ codes ".png"

keep_thumb : State → Text → Text → Result Db → State
keep_thumb s path thumb (err e) = record s { cache = store path (some thumb) s.cache }
keep_thumb s path thumb (ok db) = record s { db = db; cache = store path (some thumb) s.cache }

-- A thumbnail that was not in the cache. The row of the file is changed if the cache was written.
make_thumb : Viewer → State → File → Flow (Reply × State)
unfolding kind_for_path keep_thumb
make_thumb v s f = do
  need (text_eq (kind_for_path v f.path).kind (codes "image")) (404, codes "no thumbnail")
  root ← attempt (always missing) (provider s.db f.storage_id)
  opened ← given (v.open_file root f.path) missing
  image ← given opened.head internal
  thumb ← given (v.generate image) (415, codes "cannot generate thumbnail")
  go (
    answered 200 (thumb_image thumb),
    if v.can_write (cache_path f)
        then keep_thumb s (cache_path f) thumb (set_thumbnail_by_id s.db f.id (cache_path f))
        else s,
  )

cached : Viewer → State → File → Option Text → Flow (Reply × State)
unfolding make_thumb
cached v s f none = make_thumb v s f
cached v s f (some image) = go (answered 200 (thumb_image image), s)

-- `handleThumbnail`
unfoldable pub handle_thumbnail : Viewer → State → Principal → Option ℕ → Reply × State
unfolding cached
handle_thumbnail v s p id =
    respond s do f ← file_for s p id read; cached v s f (s.cache (cache_path f))
