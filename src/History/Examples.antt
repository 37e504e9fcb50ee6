-- ===== src/History/Examples.antt =====
-- Tests of the history page, and its theorems on concrete filters.
use profit_decision_engine.Prelude.{
  [], ◌∷◌, some, none, true, false, ◌≡◌, refl, ◌⊎◌, ◌||◌, eqb, lookup,
}
use profit_decision_engine.Prelude.NumberOrder.{at_most}
use profit_decision_engine.Prelude.Decimal.{pos, fraction}
use profit_decision_engine.Prelude.Query.{get_or_empty}
use profit_decision_engine.Api.Filters.{HistoryFilters, list_history_query}
use profit_decision_engine.Schema.{HistoryItem, approved}
use profit_decision_engine.History.{HistoryPage, initial_filters, to_query, submit, milestones}
use profit_decision_engine.History.Address.{
  from_one, history_filters_valid, history_filters-to_query, to_query-list_history_query,
}
use profit_decision_engine.History.Laws.{
  IsReversed, submit-cases, run-HasOrder, HasOrder, run, edits, submits, resets, turns,
  milestones_result,
}

abbrev conditions : HistoryFilters
conditions = record {
  batch_id = "";
  search = "toy";
  action = "observe";
  review_status = "";
  execution_state = "";
  period_start = "2026-06";
  period_end = "2026-05";
  page = pos 3;
  limit = 20;
}

fraction_test : (initial_filters (("page", "1.5") ∷ [])).page ≡ fraction false 15 0
unfolding initial_filters
fraction_test = refl

history_filters-to_query_example : initial_filters (to_query conditions) ≡ conditions
history_filters-to_query_example = history_filters-to_query conditions (from_one 2) refl

to_query-list_history_query_example :
    get_or_empty "action" (to_query conditions)
    ≡ get_or_empty "action" (list_history_query conditions)
to_query-list_history_query_example = to_query-list_history_query conditions "action" refl refl

abbrev shown : HistoryPage
shown = record {
  draft = conditions;
  filters = record conditions { period_end = "2026-06" };
  validation = "";
}

submit-cases_case :
    (IsReversed shown.draft × (submit shown ≡ record shown { validation = "起始业务期间不得晚于结束期间。" }))
    ⊎ (¬ IsReversed shown.draft
        × (submit shown ≡ record {
          draft = record conditions { page = pos 1 };
          filters = record conditions { page = pos 1 };
          validation = "";
        }))
submit-cases_case = submit-cases shown

ordered : HasOrder shown
ordered r = cc r.after

run-HasOrder_example :
    HasOrder (run shown (submits ∷ turns (pos 2) ∷ edits conditions ∷ submits ∷ resets ∷ []))
run-HasOrder_example =
    run-HasOrder shown (submits ∷ turns (pos 2) ∷ edits conditions ∷ submits ∷ resets ∷ []) ordered

abbrev row : HistoryItem
row = record {
  link_id = "l1";
  batch_id = "b";
  batch_code = "B-0001";
  period_start = "2026-05-01";
  period_end = "2026-05-31";
  business_cutoff_date = "2026-05-31";
  spu_id = "s1";
  name = "toy";
  operator_ref = "u1";
  rule_version = "v1";
  product_type = some "large_hit";
  business_action = some "invest";
  inventory_action = none;
  trigger_rule = "R1";
  review_status = approved;
  business_state = "closed";
  inventory_state = "not_generated";
  audit_count = 0;
  generated_at = "2026-06-01T08:00:00Z";
  latest_event_type = none;
  latest_event_actor = none;
  latest_event_at = none;
}

done : lookup "业务结果" (milestones row) ≡ some true
unfolding milestones
done = refl

milestones_result_case : lookup "运营动作" (milestones row) ≡ some true
milestones_result_case = milestones_result row done

history_filters_valid_example :
    (at_most (pos 1) (initial_filters (("page", "1.5") ∷ ("limit", "7") ∷ [])).page ≡ true)
    × ((eqb (initial_filters (("page", "1.5") ∷ ("limit", "7") ∷ [])).limit 20
          || eqb (initial_filters (("page", "1.5") ∷ ("limit", "7") ∷ [])).limit 50
          || eqb (initial_filters (("page", "1.5") ∷ ("limit", "7") ∷ [])).limit 100)
        ≡ true)
history_filters_valid_example = history_filters_valid (("page", "1.5") ∷ ("limit", "7") ∷ [])
