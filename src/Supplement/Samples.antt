-- ===== src/Supplement/Samples.antt =====
-- A decision with one lane, for the tests.
use profit_decision_engine.Prelude.{[], ◌∷◌, none, some}
use profit_decision_engine.Supplement.Data.{operator, Slot, Decision, ActionItem}

abbrev pub lane : ActionItem
lane = record {
  action_id = "a1";
  slot = Slot.operation;
  action_value = "clearance";
  action_label = "清仓";
  owner_role = operator;
  execution_state = "executed";
  execution_version = 2;
  executed_by = none;
  executed_at = none;
  execution_note = none;
  result = none;
  result_recorded_at = none;
}

abbrev pub sample : Decision
sample = record {
  decision_id = "d1";
  batch_id = "b1";
  spu_id = "s1";
  spu_name = "N";
  store = "S";
  platform = none;
  operator_ref = none;
  category = some "small_hit";
  main_action = some "clearance";
  main_action_label = some "清仓";
  replenishment_action = "forbid";
  replenishment_label = "禁止补货";
  review_state = some "pending";
  review_version = some 3;
  actions = lane ∷ [];
  created_at = "2025-01-01";
  period_start = none;
  period_end = none;
  business_date = none;
  net_sales = some "100";
  profit_rate = none;
  promotion_expense = none;
  return_rate_7d = none;
  warehouse_qty = none;
  in_transit_qty = none;
  sales_units_14d = none;
  inventory_days = some "12";
  rule_version = none;
  triggered_rules = none;
  key_inputs = none;
  four_elements = none;
  reviewed_by = none;
  reviewed_at = none;
  review_note = none;
  ai = none;
}
