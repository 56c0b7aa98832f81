-- ===== src/Ingest/Batches.antt =====
-- `Ingest` of server/internal/ingest/ingest.go, compared with the same records without batches.
use file_tag_system.Prelude.{
  ℕ, suc, ◌+◌, List, [], ◌∷◌, Bool, false, leb, Option, none, some, length, ◌≡◌, inl, inr, refl, ap,
  ◌∙◌, arith, Bool-cases,
}
use file_tag_system.Text.{Text}
use file_tag_system.Result.{Result, ok, err, ok_injective}
use file_tag_system.Db.{Db}
use file_tag_system.Ingest.{
  Record, upsert, sweep, Progress, written, batch_size, lines, after_lines, parsed_line, ingest,
}

-- The records of the lines, the empty ones left out.
pub data Reads (parse : Text → Option Record) : List Text → List Record → Type 0 where
  nothing : Reads parse [] []
  blank : (ls : List Text) (rs : List Record) → Reads parse ls rs → Reads parse ([] ∷ ls) rs
  record_of :
      (c : ℕ) (t : Text) (ls : List Text) (r : Record) (rs : List Record)
      → parse (c ∷ t) ≡ some r
      → Reads parse ls rs
      → Reads parse ((c ∷ t) ∷ ls) (r ∷ rs)

-- Every record written, one after the other.
abbrev pub upsert_each : Db → ℕ → ℕ → Text → List Record → Result Db
upsert_each db sid start prefix [] = ok db
upsert_each db sid start prefix (r ∷ rs) = elim (upsert db sid start prefix r) [
  | err e ↦ err e
  | ok d ↦ upsert_each d sid start prefix rs
]

written-fields :
    (batch : ℕ) (s : Progress) (db : Db)
    → ((written batch s db).pending ≡ db) × ((written batch s db).processed ≡ suc s.processed)
unfolding written
written-fields batch s db = elim (Bool-cases (leb batch (suc s.in_batch))) [
  | inl y ↦ rw y (refl, refl)
  | inr n ↦ rw n (refl, refl)
]

lines-Reads :
    (parse : Text → Option Record) (is_cancelled : ℕ → Bool) (sid start : ℕ) (prefix : Text)
    (batch : ℕ) (ls : List Text) (rs : List Record) (s : Progress) (d : Db)
    → ((n : ℕ) → is_cancelled n ≡ false)
    → Reads parse ls rs
    → upsert_each s.pending sid start prefix rs ≡ ok d
    → lines parse is_cancelled false sid start prefix batch ls s
      ≡ (none, s.processed + length rs, sweep d sid start prefix)
unfolding lines after_lines parsed_line
lines-Reads parse c sid start prefix batch ls rs s d free nothing h =
    let count : s.processed + 0 ≡ s.processed = omega arith in
    let same : s.pending ≡ d = ok_injective h in rw (count, same) refl
lines-Reads parse c sid start prefix batch ls rs s d free (blank rest rs' reads) h =
    rw (lines, free (length rest))
      (lines-Reads parse c sid start prefix batch rest rs s d free reads h)
lines-Reads parse c sid start prefix batch ls rs s d free (record_of x t rest r rs' p reads) h =
    rw (lines, free (length rest), p)
      (by_upsert (upsert s.pending sid start prefix r) refl (λ db k.
        lines-Reads parse c sid start prefix batch rest rs' (written (batch_size batch) s db) d free
          reads k))
  where
    by_upsert :
        (u : Result Db)
        → upsert s.pending sid start prefix r ≡ u
        → ((db : Db)
            → upsert_each (written (batch_size batch) s db).pending sid start prefix rs' ≡ ok d
            → lines parse c false sid start prefix batch rest (written (batch_size batch) s db) ≡ (
              none,
              (written (batch_size batch) s db).processed + length rs',
              sweep d sid start prefix,
            ))
        → parsed_line parse c false sid start prefix batch s
            (some r)
            (lines parse c false sid start prefix batch rest)
          ≡ (none, s.processed + suc (length rs'), sweep d sid start prefix)
    by_upsert (err e) u next = cc (rw (upsert_each, u) at h)
    by_upsert (ok db) u next =
        let (open_db, count) = written-fields (batch_size batch) s db in
        let total : (written (batch_size batch) s db).processed + length rs'
            ≡ s.processed + suc (length rs') =
          omega (arith, count) in
        rw (parsed_line, u) (rw (← total) (next db (rw open_db (rw (upsert_each, u) at h))))

-- An import that is not cancelled, of lines that all hold a record, writes these records one after
-- the other and sweeps once at the end, whatever the size of its batches, and returns their number.
pub ingest-Reads :
    (parse : Text → Option Record) (is_cancelled : ℕ → Bool) (sid start : ℕ) (prefix : Text)
    (batch : ℕ) (ls : List Text) (rs : List Record) (db d : Db)
    → ((n : ℕ) → is_cancelled n ≡ false)
    → Reads parse ls rs
    → upsert_each db sid start prefix rs ≡ ok d
    → ingest parse is_cancelled false sid start prefix batch db ls
      ≡ (none, length rs, sweep d sid start prefix)
unfolding ingest
ingest-Reads parse is_cancelled sid start prefix batch ls rs db d free reads h =
    let count : 0 + length rs ≡ length rs = omega arith in
    lines-Reads parse is_cancelled sid start prefix batch ls rs
      (record { committed = db; pending = db; processed = 0; in_batch = 0 }) d free reads h
    ∙ ap (λ n. (none, n, sweep d sid start prefix)) count
