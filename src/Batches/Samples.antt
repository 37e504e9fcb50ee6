-- ===== src/Batches/Samples.antt =====
-- Batches for the tests.
use profit_decision_engine.Prelude.{String, List, [], ◌∷◌, none, some}
use profit_decision_engine.Batches.{BatchSummary, BatchStatus, ready, failed}

abbrev pub batch : String → String → String → BatchStatus → BatchSummary
batch id cutoff completed status = record {
  id = id;
  code = "B-0001";
  business_unit = "toys";
  period_start = "2026-05-01";
  period_end = "2026-05-31";
  business_cutoff_date = cutoff;
  source_file_name = "may.xlsx";
  status = status;
  valid_count = some 12;
  rejected_count = none;
  degraded_count = none;
  warning_count = none;
  rule_version = some "v1";
  failure_code = none;
  created_by = "u1";
  created_at = "2026-06-01T00:00:00Z";
  completed_at = some completed;
  idempotent = none;
}

abbrev pub may : BatchSummary
may = batch "a" "2026-05-31" "2026-06-01T08:00:00Z" ready

abbrev pub june : BatchSummary
june = batch "b" "2026-06-30" "2026-07-01T08:00:00Z" ready

abbrev pub july : BatchSummary
july = batch "c" "2026-07-31" "2026-08-01T08:00:00Z" failed

abbrev pub listed : List BatchSummary
listed = may ∷ july ∷ june ∷ []
