-- ===== src/Supplement/Data.antt =====
-- types.ts. A field that may be `null` or absent is an `Option`, a figure is its text.
use profit_decision_engine.Prelude.{String, ℕ, List, Option, Bool}
use profit_decision_engine.Json.{Fields}

pub data Role : Type 0 where
  operator supervisor procurement : Role

pub record AuthStatus : Type 0 where
  pub authenticated : Bool
  pub dingtalk_ready : Option Bool
  pub support_guidance : Option String
  pub actor_ref : Option String
  pub actor_name : Option String
  pub role : Option Role
  pub role_label : Option String
  pub csrf_token : Option String

pub record Batch : Type 0 where
  pub batch_id : String
  pub business_unit : String
  pub period_start : String
  pub period_end : String
  pub business_date : String
  pub source_name : String
  pub status : String
  pub valid_row_count : ℕ
  pub rejected_row_count : ℕ
  pub degraded_field_count : ℕ
  pub warning_count : ℕ
  pub error_message : Option String
  pub created_by : String
  pub created_at : String

pub data Slot : Type 0 where
  operation procurement_slot : Slot

pub record ActionItem : Type 0 where
  pub action_id : String
  pub slot : Slot
  pub action_value : String
  pub action_label : String
  pub owner_role : Role
  pub execution_state : String
  pub execution_version : ℕ
  pub executed_by : Option String
  pub executed_at : Option String
  pub execution_note : Option String
  pub result : Option Fields
  pub result_recorded_at : Option String

pub record AiContent : Type 0 where
  pub status : String
  pub content : Option Fields

pub record Decision : Type 0 where
  pub decision_id : String
  pub batch_id : String
  pub spu_id : String
  pub spu_name : String
  pub store : String
  pub platform : Option String
  pub operator_ref : Option String
  pub category : Option String
  pub main_action : Option String
  pub main_action_label : Option String
  pub replenishment_action : String
  pub replenishment_label : String
  pub review_state : Option String
  pub review_version : Option ℕ
  pub actions : List ActionItem
  pub created_at : String
  pub period_start : Option String
  pub period_end : Option String
  pub business_date : Option String
  pub net_sales : Option String
  pub profit_rate : Option String
  pub promotion_expense : Option String
  pub return_rate_7d : Option String
  pub warehouse_qty : Option String
  pub in_transit_qty : Option String
  pub sales_units_14d : Option String
  pub inventory_days : Option String
  pub rule_version : Option String
  pub triggered_rules : Option (List String)
  pub key_inputs : Option Fields
  pub four_elements : Option Fields
  pub reviewed_by : Option String
  pub reviewed_at : Option String
  pub review_note : Option String
  pub ai : Option AiContent

pub data Severity : Type 0 where
  rejected degraded warning : Severity

pub record ImportIssue : Type 0 where
  pub source_row : ℕ
  pub field : String
  pub original_value : String
  pub severity : Severity
  pub code : String
  pub message : String
  pub continues_processing : Bool

pub record Snapshot : Type 0 where
  pub spu_id : String
  pub spu_name : String
  pub store : String
  pub platform : String
  pub operator_ref : String
  pub launch_date : Option String
  pub net_sales : Option String
  pub profit_rate : Option String
  pub return_rate_7d : Option String
  pub return_period_verified : Bool
  pub warehouse_qty : Option String
  pub in_transit_qty : Option String
  pub sales_units_14d : Option String
  pub inventory_days : Option String
  pub quality_flags : List String

pub record TraceEvent : Type 0 where
  pub event_id : String
  pub event_type : String
  pub decision_id : String
  pub batch_id : String
  pub spu_id : String
  pub action : Option String
  pub from_state : String
  pub to_state : String
  pub actor_ref : String
  pub note : Option String
  pub occurred_at : String
  pub rule_version : Option String
