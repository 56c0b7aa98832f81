-- ===== src/Examples/Scans.antt =====
-- An import of two lines, a scan that goes on, and a batch of tags, on the example.
use file_tag_system.Prelude.{
  List, [], ◌∷◌, true, false, Option, none, some, ◌≡◌, refl, arith, ◌==◌, if◌then◌else◌,
}
use file_tag_system.Text.{Text, codes, text_eq}
use file_tag_system.Result.{Result, ok, err, busy}
use file_tag_system.Db.{Db, FileField}
use file_tag_system.Catalog.{materialize}
use file_tag_system.Tagging.{tag_row, apply_tag, insert_tag}
use file_tag_system.Tagging.Apply.{SingleValued}
use file_tag_system.Tagging.Governance.{BatchOp, batch}
use file_tag_system.Tagging.Governance.Batch.{batch-SingleValued}
use file_tag_system.Ingest.{Record, upsert, sweep, ingest}
use file_tag_system.Ingest.Batches.{Reads, nothing, blank, record_of, upsert_each, ingest-Reads}
use file_tag_system.Ingest.Jobs.{
  Job, JobManager, progresses, scanning, start, set_processed, Goes, running-Goes,
}
use file_tag_system.Examples.{bare, planted}

-- A line is the path of a plain file.
abbrev plain_line : Text → Option Record
plain_line l = some record {
  path = l;
  is_dir = false;
  size_bytes = some 1;
  modified_at_fs = none;
  created_at_fs = none;
}

abbrev seen : Text → Record
seen l = record {
  path = l;
  is_dir = false;
  size_bytes = some 1;
  modified_at_fs = none;
  created_at_fs = none;
}

abbrev once : Result Db
once = upsert_each bare 1 7 [] (seen (codes "notes") ∷ seen (codes "b") ∷ [])

abbrev db_of : Result Db → Db
db_of (ok d) = d
db_of (err e) = bare

ingest-Reads_example :
    ingest plain_line (λ n. false) false 1 7 [] 1 bare (codes "notes" ∷ [] ∷ codes "b" ∷ [])
    ≡ (none, 2, sweep (db_of once) 1 7 [])
ingest-Reads_example =
    ingest-Reads plain_line (λ n. false) 1 7 [] 1 (codes "notes" ∷ [] ∷ codes "b" ∷ [])
      (seen (codes "notes") ∷ seen (codes "b") ∷ []) bare (db_of once) (λ n. refl) reads written
  where
    reads :
        Reads plain_line
          (codes "notes" ∷ [] ∷ codes "b" ∷ [])
          (seen (codes "notes") ∷ seen (codes "b") ∷ [])
    reads = record_of _ _ _ _ _ refl (blank _ _ (record_of _ _ _ _ _ refl nothing))

    written : once ≡ ok (db_of once)
    written = unfold upsert text_eq in refl

abbrev job : Job
job = record { state = scanning; processed = 0; error = none; started_at = 5; is_cancelled = true }

abbrev one_job : JobManager
one_job sid = if sid == 1 then some job else none

running-Goes_example :
    Goes one_job (set_processed one_job 1 40) 1 job × (start one_job 1 9 ≡ err busy)
running-Goes_example =
    running-Goes one_job (set_processed one_job 1 40) 1 9 job refl refl
      (progresses 1 40 (set_processed one_job 1 40) refl)

abbrev with_tags : List FileField → Db
with_tags rows = record planted { file_fields = rows }

abbrev retag : BatchOp
retag = record {
  storage_id = 1;
  fi = record { path = codes "notes"; is_dir = false; size = 1; modified = none };
  apply = record { field_type_id = 1; field_value_id = 3 } ∷ [];
  remove = 2 ∷ [];
}

batch-SingleValued_example : SingleValued (with_tags (tag_row 1 1 3 ∷ []))
batch-SingleValued_example =
    batch-SingleValued (with_tags (tag_row 1 1 1 ∷ tag_row 1 2 2 ∷ []))
      (with_tags (tag_row 1 1 3 ∷ [])) (retag ∷ []) single done
  where
    single : SingleValued (with_tags (tag_row 1 1 1 ∷ tag_row 1 2 2 ∷ []))
    single ft t h off f = ground arith

    done :
        batch (with_tags (tag_row 1 1 1 ∷ tag_row 1 2 2 ∷ [])) (retag ∷ [])
        ≡ ok (with_tags (tag_row 1 1 3 ∷ []))
    done = unfold batch materialize text_eq apply_tag insert_tag in refl
