-- ===== src/Supplement/ListExamples.antt =====
-- Tests of the lists of the supplementary frontend, and their theorems on concrete values.
use profit_decision_engine.Prelude.{
  String, List, [], ◌∷◌, map, ◌≢◌, Option, none, some, true, false, ◌≡◌, ◌↔◌, refl, inl, inr, elem,
  truthy, filter, ◌==◌, arith,
}
use profit_decision_engine.Supplement.Data.{TraceEvent, Batch}
use profit_decision_engine.Supplement.Options.{
  unique_options, occurs, Unique, unique_options-occurs,
}
use profit_decision_engine.Supplement.Actions.View
use profit_decision_engine.Supplement.Actions.Pages
use profit_decision_engine.Supplement.Actions.Cards.{lane_states}
use profit_decision_engine.Supplement.Actions.Offered.{
  execution_select, filter_of, after_choice, chosen-rows,
}
use profit_decision_engine.Supplement.Samples.{sample}
use profit_decision_engine.Supplement.Trace.View.{TracePage, clear, rows, day_of}
use profit_decision_engine.Supplement.Trace.Filters.{rows-clear}
use profit_decision_engine.Supplement.Batches.Listing
use profit_decision_engine.Supplement.Batches.Import
use profit_decision_engine.Supplement.Batches.Confirmed.{Upload, Origin, step-after-post}

abbrev stores : List (Option String)
stores = some "a" ∷ none ∷ some "b" ∷ some "" ∷ some "a" ∷ []

unique_options-occurs_example :
    ((x : String)
      → (elem x (unique_options stores) ≡ true) ↔ ((truthy x ≡ true) × (occurs x stores ≡ true)))
    × Unique (unique_options stores)
unique_options-occurs_example = unique_options-occurs stores

unique_options_test : unique_options stores ≡ "a" ∷ "b" ∷ []
unfolding unique_options
unique_options_test = refl

abbrev run : List Pages.Event
run = Pages.loaded [] ∷ Pages.chose Pages.store (some "s") ∷ Pages.resized 50 ∷ Pages.turned 1 ∷ []

abbrev identity : String → String
identity s = s

after-initial_example :
    ((Pages.after run View.initial).page ≡ 1)
    × (Pages.last_page identity (Pages.after run View.initial) ≡ 1)
unfolding Pages.step Pages.total View.rows
after-initial_example =
    Pages.after-initial identity run
      (omega arith, (tt, (inr (inl refl), ((omega arith, omega arith), tt))))

chosen-rows_example :
    View.rows identity (after_choice (filter_of execution_select) "executed" (sample ∷ [])) ≢ []
unfolding unique_options lane_states
chosen-rows_example = chosen-rows identity execution_select "executed" (sample ∷ []) refl

offered_test : elem "S" (unique_options (map (λ item. some item.store) (sample ∷ []))) ≡ true
unfolding unique_options
offered_test = refl

abbrev event : TraceEvent
event = record {
  event_id = "e";
  event_type = "review_approve";
  decision_id = "d";
  batch_id = "b";
  spu_id = "s";
  action = none;
  from_state = "pending";
  to_state = "approved";
  actor_ref = "u";
  note = none;
  occurred_at = "2025-03-04T05:06:07";
  rule_version = none;
}

abbrev narrowed : TracePage
narrowed = record {
  decision_id = "";
  batch_id = "x";
  spu_id = "";
  action = some "clearance";
  state = none;
  actor = "";
  date_range = none;
  event_type = none;
  page_size = 20;
}

rows-clear_example :
    (rows identity (clear narrowed) (event ∷ []) ≡ event ∷ [])
    × ((d : String)
        → rows identity (record (clear narrowed) { date_range = some (d, d) }) (event ∷ [])
          ≡ filter (λ item. day_of item == d) (event ∷ []))
rows-clear_example = rows-clear identity narrowed (event ∷ [])

rows_test : rows identity narrowed (event ∷ []) ≡ []
unfolding rows
rows_test = refl

abbrev batch : Batch
batch = record {
  batch_id = "b";
  business_unit = "u";
  period_start = "2025-01-01";
  period_end = "2025-01-31";
  business_date = "2025-02-01";
  source_name = "f.xlsx";
  status = "ready";
  valid_row_count = 1;
  rejected_row_count = 0;
  degraded_field_count = 0;
  warning_count = 0;
  error_message = none;
  created_by = "c";
  created_at = "2025-02-02";
}

abbrev searching : Listing.ListPage
searching = record { status = some "failed"; keyword = "q"; created_range = none; page = 4 }

rows-reset_case :
    (Listing.rows identity (Listing.step Listing.reset searching) (batch ∷ []) ≡ batch ∷ [])
    × (Listing.request_path (Listing.step Listing.reset searching) ≡ "/batches?page=1&page_size=20")
rows-reset_case = Listing.rows-reset identity searching (batch ∷ []) refl

path_test : Listing.request_path searching ≡ "/batches?page=4&page_size=20&status=failed"
unfolding Listing.request_path
path_test = refl

abbrev fields : Import.Fields
fields = record {
  business_unit = "u";
  period = some ("2025-01-01", "2025-01-31");
  business_date = some "2025-02-01";
}

abbrev filled_in : List Import.Event
filled_in = Import.selected "f.xlsx" ∷ Import.submitted fields ∷ []

abbrev body : List (String × Import.Entry)
body =
    ("business_unit", Import.text "u")
    ∷ ("period_start", Import.text "2025-01-01")
    ∷ ("period_end", Import.text "2025-01-31")
    ∷ ("business_date", Import.text "2025-02-01")
    ∷ ("file", Import.upload "f.xlsx")
    ∷ []

step-after-post_example :
    (◌≡◌ {A = Import.Event} Import.confirmed Import.confirmed)
    × ((Import.after filled_in Import.initial).is_pending ≡ false)
    × ((upload : Upload (Import.after filled_in Import.initial) body) × Origin filled_in
          upload.values)
unfolding Import.step Import.after
step-after-post_example = step-after-post filled_in Import.confirmed body refl
