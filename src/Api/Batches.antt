-- ===== src/Api/Batches.antt =====
-- `handleBatchTags` of server/internal/api/handlers_governance.go: one change of tags for many paths.
use file_tag_system.Prelude.{ℕ, List, [], ◌∷◌, ◌++◌, Bool, true, false, Option, none, length}
use file_tag_system.Text.{Text, codes}
use file_tag_system.Models.{write_meta}
use file_tag_system.Catalog.Lists.{Disk, provider}
use file_tag_system.Tagging.Governance.{FieldRef, BatchOp, batch}
use file_tag_system.Audit.{tag_apply, number, flag}
use file_tag_system.Api.{
  State, Principal, Reply, Flow, go, respond, need, given, attempt, ◌>>=◌, ◌>>◌, no_content, can,
  logged, forbidden, bad_body, server_error, always,
}
use file_tag_system.Api.Query.{normalize_dir}

pub record Target : Type 0 where
  pub storage_id : ℕ
  pub path : Text

pub record BatchRequest : Type 0 where
  pub targets : List Target
  pub apply : List FieldRef
  pub remove : List ℕ

-- One turn of the loop over the targets.
unfoldable pub target_op : Disk → State → Principal → BatchRequest → Target → Flow BatchOp
unfolding normalize_dir
target_op disk s p req t = do
  need (can s p t.storage_id (normalize_dir t.path) write_meta) forbidden
  root ← attempt (always (400, codes "invalid storage")) (provider s.db t.storage_id)
  fi ← attempt (always (400, codes "path not found: " ++ t.path)) (disk.stat root t.path)
  go record { storage_id = t.storage_id; fi = fi; apply = req.apply; remove = req.remove }

unfoldable pub target_ops :
    Disk → State → Principal → BatchRequest → List Target → Flow (List BatchOp)
unfolding target_op
target_ops disk s p req [] = go []
target_ops disk s p req (t ∷ ts) = do
  op ← target_op disk s p req t
  ops ← target_ops disk s p req ts
  go (op ∷ ops)

unfoldable pub has_targets : List Target → Bool
has_targets [] = false
has_targets (t ∷ ts) = true

-- `handleBatchTags`
unfoldable pub handle_batch_tags : Disk → State → Principal → Option BatchRequest → Reply × State
unfolding target_ops has_targets
handle_batch_tags disk s p body = respond s do
  req ← given body bad_body
  need (has_targets req.targets) (400, codes "no targets")
  ops ← target_ops disk s p req req.targets
  db ← attempt server_error (batch s.db ops)
  go (
    no_content,
    logged p tag_apply [] none
        (number (codes "apply") (length req.apply)
          ∷ flag (codes "batch") true
          ∷ number (codes "remove") (length req.remove)
          ∷ number (codes "targets") (length ops)
          ∷ [])
        (record s { db = db }),
  )
