-- ===== src/Batches.antt =====
-- web/src/pages/actionBatchOrdering.ts, and the batch types of web/src/generated/api.ts that it
-- reads. A field that may be `null` is an `Option`; dates and identifiers are texts.
pub mod Latest
pub mod Keys
pub mod Samples
mod Examples
use profit_decision_engine.Prelude.{
  String, ℕ, List, [], ◌∷◌, Option, none, some, Bool, true, false, join, text_lt, or_else, filter,
  if◌then◌else◌,
}

pub data BatchStatus : Type 0 where
  received processing ready failed : BatchStatus

pub record BatchSummary : Type 0 where
  pub id : String
  pub code : String
  pub business_unit : String
  pub period_start : String
  pub period_end : String
  pub business_cutoff_date : String
  pub source_file_name : String
  pub status : BatchStatus
  pub valid_count : Option ℕ
  pub rejected_count : Option ℕ
  pub degraded_count : Option ℕ
  pub warning_count : Option ℕ
  pub rule_version : Option String
  pub failure_code : Option String
  pub created_by : String
  pub created_at : String
  pub completed_at : Option String
  pub idempotent : Option Bool

-- `batch.status === 'ready'`
abbrev pub is_ready : BatchStatus → Bool
is_ready ready = true
is_ready _ = false

-- The array `batchKey`, and its join by U+0000.
abbrev pub key_parts : BatchSummary → List String
key_parts b = b.business_cutoff_date ∷ or_else b.completed_at "" ∷ b.id ∷ []

unfoldable pub batch_key : BatchSummary → String
batch_key b = join "\0" (key_parts b)

-- One round of the `reduce`.
unfoldable pub later_of : Option BatchSummary → BatchSummary → Option BatchSummary
later_of none batch = some batch
later_of (some latest) batch =
    if text_lt (batch_key latest) (batch_key batch) then some batch else some latest

unfoldable pub latest_from : Option BatchSummary → List BatchSummary → Option BatchSummary
latest_from latest [] = latest
latest_from latest (batch ∷ rest) = latest_from (later_of latest batch) rest

unfoldable pub latest_ready_batch : List BatchSummary → Option BatchSummary
unfolding latest_from later_of batch_key
latest_ready_batch batches = latest_from none (filter (λ b. is_ready b.status) batches)
