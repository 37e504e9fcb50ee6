-- ===== src/Api/Filters.antt =====
-- The filters of web/src/api.ts and the queries that `listActions`, `listHistory` and `listBatches`
-- build from them. An absent text is the empty one: both are left out of a query.
use profit_decision_engine.Prelude.{String, ℕ, [], ◌∷◌}
use profit_decision_engine.Prelude.Decimal.{Number, number_text, to_decimal}
use profit_decision_engine.Prelude.Query.{Params, set, set_if, append_if}

pub data Tab : Type 0 where
  mine all processing completed : Tab

abbrev pub tab_text : Tab → String
tab_text mine = "mine"
tab_text all = "all"
tab_text processing = "processing"
tab_text completed = "completed"

pub record ActionFilters : Type 0 where
  pub batch_id : String
  pub tab : Tab
  pub search : String
  pub action : String
  pub store : String
  pub operator : String
  pub review_status : String
  pub business_state : String
  pub inventory_state : String
  pub clearance_status : String
  pub progress : String
  pub page : Number
  pub limit : Number

unfoldable pub list_actions_query : ActionFilters → Params
list_actions_query f =
    let q = set_if "batch_id" f.batch_id [] in
    let q = set "tab" (tab_text f.tab) q in
    let q = set_if "search" f.search q in
    let q = set_if "action" f.action q in
    let q = set_if "store" f.store q in
    let q = set_if "operator" f.operator q in
    let q = set_if "review_status" f.review_status q in
    let q = set_if "business_state" f.business_state q in
    let q = set_if "inventory_state" f.inventory_state q in
    let q = set_if "clearance_status" f.clearance_status q in
    let q = set_if "progress" f.progress q in
    let q = set "page" (number_text f.page) q in set "limit" (number_text f.limit) q

pub record HistoryFilters : Type 0 where
  pub batch_id : String
  pub search : String
  pub action : String
  pub review_status : String
  pub execution_state : String
  pub period_start : String
  pub period_end : String
  pub page : Number
  pub limit : ℕ

unfoldable pub list_history_query : HistoryFilters → Params
list_history_query f =
    let q = set_if "batch_id" f.batch_id [] in
    let q = set_if "search" f.search q in
    let q = append_if "action" f.action q in
    let q = append_if "review_status" f.review_status q in
    let q = append_if "execution_state" f.execution_state q in
    let q = set_if "period_start" f.period_start q in
    let q = set_if "period_end" f.period_end q in
    let q = set "page" (number_text f.page) q in set "limit" (to_decimal f.limit) q

unfoldable pub list_batches_query : ℕ → ℕ → String → Params
list_batches_query page limit search =
    set_if "search" search (("page", to_decimal page) ∷ ("limit", to_decimal limit) ∷ [])
