-- ===== src/Suggestion/Samples.antt =====
-- A suggestion and a page for the tests.
use profit_decision_engine.Prelude.{[], none, some, false}
use profit_decision_engine.Json.{end}
use profit_decision_engine.Access.Session.{operations}
use profit_decision_engine.Schema.{ActionItem, SuggestionDetail, ReviewStatus, new_task}
use profit_decision_engine.Api.{approve}
use profit_decision_engine.Suggestion.Feedback.{Browser, idle}
use profit_decision_engine.Suggestion.Operations.{OperationsPanel}
use profit_decision_engine.Suggestion.Supervisor.{first_panel}
use profit_decision_engine.Suggestion.Page.{DetailPage}

abbrev pub item : ActionItem
item = record {
  link_id = "l1";
  task_id = "t1";
  decision_id = "d1";
  batch_id = "b";
  batch_code = "B-0001";
  period_start = "2026-05-01";
  period_end = "2026-05-31";
  business_cutoff_date = "2026-05-31";
  rule_version = "v1";
  spu_id = "s1";
  name = "toy";
  store = "shop";
  platform = "tmall";
  operator_ref = "u1";
  suggested_business_action = some "observe";
  suggested_inventory_action = some "restock";
  effective_business_action = some "observe";
  effective_inventory_action = some "restock";
  trigger_rule = "R1";
  evidence = end;
  review_status = ReviewStatus.approved;
  review_version = 4;
  business_state = "pending_execution";
  inventory_state = "pending_execution";
  business_version = 7;
  inventory_version = 9;
  relation_type = new_task;
  task_created_at = "2026-06-01T08:00:00Z";
  linked_at = "2026-06-01T08:00:00Z";
  business_executed_at = none;
  net_sales_prev_month = some "1200.5";
  operating_profit_rate = some "0.12";
  quality_return_rate_7d = none;
  inventory_days = none;
  quality = [];
  latest_ai_status = "generated";
  latest_notification_status = none;
  latest_notification_error_code = none;
  latest_clearance_status = none;
  previous = none;
}

abbrev pub detail : SuggestionDetail
detail = record {
  item = item;
  events = [];
  ai_status = "generated";
  ai_content = end;
  clearance_completion = none;
  notifications = [];
}

abbrev pub panel : OperationsPanel
panel = record {
  business_note = "lowered the bid";
  inventory_note = "";
  result_note = "";
  period_start = "";
  period_end = "";
  sales = "12.5";
  profit = "";
  stock = "";
  feedback = "";
  completed_at = "";
  clearance_note = "";
  oa_recipient = "";
  oa_request = "";
  command = idle;
  result = idle;
  clearance = idle;
  oa_send = idle;
  oa_retry = idle;
}

abbrev pub page : DetailPage
page = record {
  link_id = "l1";
  history_mode = false;
  role = some operations;
  detail = detail;
  review_choice = approve;
  note = "";
  message = "";
  review = idle;
  ai_retry = idle;
  operating = panel;
  supervising = first_panel detail;
}

abbrev pub browser : Browser
browser = record { encode = λ s. s; key = "k1"; date = λ s. s; instant = λ s. s; figure = λ s. s }
