-- ===== src/Batches.antt =====
-- `DeleteMulti` of internal/s3io/s3io.go: keys are deleted in requests of at most 1000. What the
-- bucket answers to a request, after `mapError`, is an argument.
pub mod Complete
use remote_s3_bucket_plugin.Table.{Text}
use remote_s3_bucket_plugin.Entry.{Error}
use remote_s3_bucket_plugin.Prelude.{
  ℕ, zero, suc, ◌+◌, Option, none, some, List, [], ◌∷◌, ◌==◌, if◌then◌else◌, length, take, drop,
}

-- The requests that were made, by how much `Stats.Deletes` grew, and the error that ended the loop.
pub record Deleted : Type 0 where
  pub batches : List (List Text)
  pub deletes : ℕ
  pub error : Option Error

-- A request for `batch` and then what the rest of the loop did.
abbrev pub request : List Text → Deleted → Deleted
request batch rest = record {
  batches = batch ∷ rest.batches;
  deletes = length batch + rest.deletes;
  error = rest.error;
}

-- Each round takes one key at least.
delete_loop : ℕ → (List Text → Option Error) → List Text → Deleted
delete_loop zero send keys = record { batches = []; deletes = 0; error = none }
delete_loop (suc fuel) send keys =
    let rest = delete_loop fuel send (drop 1000 keys) in
    if length keys == 0
    then record { batches = []; deletes = 0; error = none }
    else elim (send (take 1000 keys)) [
      | some err ↦ request (take 1000 keys) (record { batches = []; deletes = 0; error = some err })
      | none ↦ request (take 1000 keys) rest
    ]

unfoldable pub delete_multi : (List Text → Option Error) → List Text → Deleted
unfolding delete_loop
delete_multi send keys = delete_loop (length keys) send keys
