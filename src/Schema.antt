-- ===== src/Schema.antt =====
-- The schemas of web/src/generated/api.ts that the pages read (the batch schemas are in Batches). A
-- field that may be `null` or absent is an `Option`; dates, times and identifiers are texts; a
-- measured figure is carried by its decimal text, since nothing compares figures.
use profit_decision_engine.Prelude.{String, ℕ, List, Option}
use profit_decision_engine.Json.{Fields}
use profit_decision_engine.Batches.{BatchSummary}
use profit_decision_engine.Access.Session.{BusinessRole, SessionUser}

pub record SessionResponse : Type 0 where
  pub user : SessionUser

pub record ConflictLatest : Type 0 where
  pub review_status : String
  pub review_version : ℕ
  pub business_state : String
  pub business_version : ℕ
  pub inventory_state : String
  pub inventory_version : ℕ
  pub actor_ref : Option String
  pub updated_at : Option String

pub record ErrorResponse : Type 0 where
  pub error : Option String
  pub latest : Option ConflictLatest

pub data Severity : Type 0 where
  rejected degraded warning : Severity

pub record ImportIssue : Type 0 where
  pub source_sheet : String
  pub source_row : Option ℕ
  pub spu_id : Option String
  pub field : String
  pub raw_value : Option String
  pub code : String
  pub reason : String
  pub impact : String
  pub resolution : String
  pub severity : Severity

pub record Decision : Type 0 where
  pub id : String
  pub product_type : Option String
  pub business_action : Option String
  pub inventory_action : Option String
  pub trigger_rule : String
  pub evidence : Fields

pub record Snapshot : Type 0 where
  pub id : String
  pub spu_id : String
  pub name : String
  pub store : String
  pub platform : String
  pub operator_ref : String
  pub source_sheet : String
  pub source_row : ℕ
  pub launch_date : Option String
  pub net_sales_prev_month : Option String
  pub operating_profit_rate : Option String
  pub quality_return_rate_7d : Option String
  pub inventory_days : Option String
  pub quality : List (String × String)
  pub raw_values : List (String × String)
  pub decision : Option Decision

pub record BatchDetail : Type 0 where
  pub summary : BatchSummary
  pub issues : List ImportIssue
  pub snapshots : List Snapshot

-- `BatchListResponse`, `ActionListResponse` and `HistoryResponse`
pub record Listing {ℓ} (A : Type ℓ) : Type ℓ where
  pub items : List A
  pub page : ℕ
  pub limit : ℕ
  pub total : ℕ

pub record PreviousActionItem : Type 0 where
  pub link_id : String
  pub batch_id : String
  pub batch_code : String
  pub spu_id : String
  pub name : String
  pub business_action : Option String
  pub inventory_action : Option String
  pub trigger_rule : String
  pub business_state : String
  pub task_created_at : String
  pub linked_at : String
  pub business_executed_at : Option String
  pub net_sales_prev_month : Option String
  pub operating_profit_rate : Option String
  pub quality_return_rate_7d : Option String
  pub inventory_days : Option String

pub data ReviewStatus : Type 0 where
  pending approved rejected : ReviewStatus

pub data RelationType : Type 0 where
  new_task same_action_continuation action_change_pending : RelationType

pub record ActionItem : Type 0 where
  pub link_id : String
  pub task_id : String
  pub decision_id : String
  pub batch_id : String
  pub batch_code : String
  pub period_start : String
  pub period_end : String
  pub business_cutoff_date : String
  pub rule_version : String
  pub spu_id : String
  pub name : String
  pub store : String
  pub platform : String
  pub operator_ref : String
  pub suggested_business_action : Option String
  pub suggested_inventory_action : Option String
  pub effective_business_action : Option String
  pub effective_inventory_action : Option String
  pub trigger_rule : String
  pub evidence : Fields
  pub review_status : ReviewStatus
  pub review_version : ℕ
  pub business_state : String
  pub inventory_state : String
  pub business_version : ℕ
  pub inventory_version : ℕ
  pub relation_type : RelationType
  pub task_created_at : String
  pub linked_at : String
  pub business_executed_at : Option String
  pub net_sales_prev_month : Option String
  pub operating_profit_rate : Option String
  pub quality_return_rate_7d : Option String
  pub inventory_days : Option String
  pub quality : List (String × String)
  pub latest_ai_status : String
  pub latest_notification_status : Option String
  pub latest_notification_error_code : Option String
  pub latest_clearance_status : Option String
  pub previous : Option PreviousActionItem

pub record HistoryItem : Type 0 where
  pub link_id : String
  pub batch_id : String
  pub batch_code : String
  pub period_start : String
  pub period_end : String
  pub business_cutoff_date : String
  pub spu_id : String
  pub name : String
  pub operator_ref : String
  pub rule_version : String
  pub product_type : Option String
  pub business_action : Option String
  pub inventory_action : Option String
  pub trigger_rule : String
  pub review_status : ReviewStatus
  pub business_state : String
  pub inventory_state : String
  pub audit_count : ℕ
  pub generated_at : String
  pub latest_event_type : Option String
  pub latest_event_actor : Option String
  pub latest_event_at : Option String

pub record DataLimitation : Type 0 where
  pub field : String
  pub status : String
  pub count : ℕ

pub record Workbench : Type 0 where
  pub role : BusinessRole
  pub latest_batch_id : String
  pub latest_batch_code : String
  pub batch_completed_at : String
  pub pending_review_count : ℕ
  pub pending_execution_count : ℕ
  pub pending_result_count : ℕ
  pub clearance_confirm_count : ℕ
  pub notification_failure_count : ℕ
  pub exception_count : ℕ
  pub data_limitations : List DataLimitation
  pub items : List ActionItem

pub record BusinessEvent : Type 0 where
  pub id : String
  pub type : String
  pub actor_ref : String
  pub from_state : Option String
  pub to_state : Option String
  pub reason : Option String
  pub details : Fields
  pub created_at : String

pub record ClearanceCompletion : Type 0 where
  pub id : String
  pub submission_version : ℕ
  pub actual_completed_at : String
  pub note : Option String
  pub status : String
  pub submitted_by : String
  pub submitted_at : String
  pub reviewed_by : Option String
  pub reviewed_at : Option String
  pub return_reason : Option String

pub record OaNotification : Type 0 where
  pub id : String
  pub local_date : String
  pub recipient_user_id : String
  pub template_code : String
  pub type : String
  pub status : String
  pub provider_reference : Option String
  pub error_code : Option String
  pub requested_by : String
  pub created_at : String
  pub sent_at : Option String

pub record SuggestionDetail : Type 0 where
  pub item : ActionItem
  pub events : List BusinessEvent
  pub ai_status : String
  pub ai_content : Fields
  pub clearance_completion : Option ClearanceCompletion
  pub notifications : List OaNotification
