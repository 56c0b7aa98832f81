-- ===== src/Ingest.antt =====
-- server/internal/ingest/ingest.go: the records of a scan, written in batches, and the sweep that
-- marks what the scan did not see. `encoding/json` is the argument `parse`, and the context that may
-- be cancelled an argument that is asked before each line, by the number of lines left. The starts
-- of scans are numbers in the order of time.
pub mod Batches
pub mod Jobs
use file_tag_system.Prelude.{
  ℕ, zero, suc, ◌+◌, List, [], ◌∷◌, ◌++◌, Bool, true, false, ◌&&◌, ◌==◌, ltb, leb, Option, none,
  some, find, map, length, if◌then◌else◌,
}
use file_tag_system.Text.{Text}
use file_tag_system.Text.Like.{like_prefix}
use file_tag_system.Result.{
  Result, ok, err, Error, constraint, cancelled, bad_record, read_failed, guard, ◌>>=◌, ◌>>◌,
}
use file_tag_system.Db.{File, Db, next_key}
use file_tag_system.Db.Cascade.{has_storage}
use file_tag_system.Catalog.{at_path}

-- `Record`
pub record Record : Type 0 where
  pub path : Text
  pub is_dir : Bool
  pub size_bytes : Option ℕ
  pub modified_at_fs : Option Text
  pub created_at_fs : Option Text

scanned : ℕ → Record → File → File
scanned start r f = record f {
  is_dir = r.is_dir;
  size_bytes = r.size_bytes;
  modified_at_fs = r.modified_at_fs;
  created_at_fs = r.created_at_fs;
  last_scanned = some start;
  missing = false;
}

new_row : ℕ → ℕ → ℕ → Text → Record → File
unfolding scanned
new_row id sid start path r = scanned start r (record {
  id = id;
  storage_id = sid;
  path = path;
  is_dir = false;
  thumbnail_path = none;
  missing = false;
  size_bytes = none;
  modified_at_fs = none;
  created_at_fs = none;
  last_scanned = none;
})

-- The statement `upsert`.
unfoldable pub upsert : Db → ℕ → ℕ → Text → Record → Result Db
unfolding new_row scanned
upsert db sid start prefix r = elim (find (at_path sid (prefix ++ r.path)) db.files) [
  | some f ↦ ok (record db {
    files =
        map (λ (g : File). if at_path sid (prefix ++ r.path) g then scanned start r g else g)
          db.files;
  })
  | none ↦ do
    guard (has_storage db.storage_providers sid) constraint
    ok (record db {
      files =
          db.files
          ++ new_row (next_key (λ (f : File). f.id) db.files) sid start (prefix ++ r.path) r ∷ [];
    })
]

is_stale : ℕ → Option ℕ → Bool
is_stale start none = false
is_stale start (some t) = ltb t start

-- The `UPDATE … SET path_status='missing'` at the end.
unfoldable pub sweep : Db → ℕ → ℕ → Text → Db
unfolding is_stale
sweep db sid start prefix = record db {
  files =
      map
        (λ (f : File).
          if f.storage_id == sid && is_stale start f.last_scanned && like_prefix prefix f.path
          then record f { missing = true }
          else f)
        db.files;
}

-- What the loop holds: the database as committed, that of the open transaction, the number of
-- records, and how many of them the transaction has.
pub record Progress : Type 0 where
  pub committed : Db
  pub pending : Db
  pub processed : ℕ
  pub in_batch : ℕ

abbrev pub Outcome : Type 0
Outcome = Option Error × ℕ × Db

abbrev pub rolled_back : Error → Progress → Outcome
rolled_back e s = (some e, s.processed, s.committed)

-- A record that was written, with the commit of a full batch.
unfoldable pub written : ℕ → Progress → Db → Progress
written batch s db =
    if leb batch (suc s.in_batch)
    then record { committed = db; pending = db; processed = suc s.processed; in_batch = 0 }
    else record s { pending = db; processed = suc s.processed; in_batch = suc s.in_batch }

-- `batch <= 0` stands for the default of 1000.
unfoldable pub batch_size : ℕ → ℕ
batch_size n = if n == 0 then 1000 else n

module _ (parse : Text → Option Record) (is_cancelled : ℕ → Bool) (broken : Bool) (sid start : ℕ)
    (prefix : Text) (batch : ℕ) where
  -- What follows the loop.
  after_lines : Progress → Outcome
  after_lines s = elim broken [
    | true ↦ rolled_back read_failed s
    | false ↦ (none, s.processed, sweep s.pending sid start prefix)
  ]

  parsed_line : Progress → Option Record → (Progress → Outcome) → Outcome
  unfolding upsert
  parsed_line s none next = rolled_back bad_record s
  parsed_line s (some r) next = elim (upsert s.pending sid start prefix r) [
    | err e ↦ rolled_back e s
    | ok db ↦ next (written (batch_size batch) s db)
  ]

  -- The loop over the lines.
  lines : List Text → Progress → Outcome
  unfolding after_lines parsed_line
  lines [] s = after_lines s
  lines (l ∷ rest) s = elim (is_cancelled (length rest)) [
    | true ↦ rolled_back cancelled s
    | false ↦ elim l [ [] ↦ lines rest s | c ∷ t ↦ parsed_line s (parse (c ∷ t)) (lines rest) ]
  ]

  -- `Ingest`, without the calls of `onProgress`.
  unfoldable pub ingest : Db → List Text → Outcome
  unfolding lines
  ingest db ls = lines ls (record { committed = db; pending = db; processed = 0; in_batch = 0 })
