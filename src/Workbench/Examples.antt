-- ===== src/Workbench/Examples.antt =====
-- Tests of the workbench, and its theorems on concrete tasks.
use profit_decision_engine.Prelude.{ℕ, List, [], ◌∷◌, map, filter, none, some, true, ◌≡◌, refl}
use profit_decision_engine.Access.Session.{operations, supervisor, loaded}
use profit_decision_engine.Access.Router.{app, workbench}
use profit_decision_engine.Schema.{ActionItem, Workbench}
use profit_decision_engine.Suggestion.Samples.{item}
use profit_decision_engine.Workbench.{WorkbenchFilters, filtered_items, matches, role_redirect}
use profit_decision_engine.Workbench.Order.{IsOrdered, of_priority, filtered_items-IsOrdered}
use profit_decision_engine.Workbench.Laws.{role_redirect-app}
use profit_decision_engine.Workbench.View.{heading}
use profit_decision_engine.Workbench.Links.{
  pending_reviews_query, clearances_query, unnarrowed, initial_filters-links,
}
use profit_decision_engine.Api.Filters.{list_actions_query}
use profit_decision_engine.ActionList.{initial_filters}

abbrev executed_item : ActionItem
executed_item = record item { link_id = "l2"; business_state = "executed" }

abbrev later_item : ActionItem
later_item = record item { link_id = "l3" }

abbrev tasks : List ActionItem
tasks = executed_item ∷ item ∷ later_item ∷ []

abbrev search_toys : WorkbenchFilters
search_toys = record { search = "to"; action = ""; business_state = "" }

order_test : map (λ i. i.link_id) (filtered_items search_toys tasks) ≡ "l1" ∷ "l3" ∷ "l2" ∷ []
unfolding filtered_items profit_decision_engine.Workbench.state_priority
order_test = refl

filtered_items-IsOrdered_example :
    IsOrdered (filtered_items search_toys tasks)
    × ((p : ℕ)
        → of_priority p (filtered_items search_toys tasks)
          ≡ of_priority p (filter (matches search_toys) tasks))
filtered_items-IsOrdered_example = filtered_items-IsOrdered search_toys tasks

abbrev answered : Workbench
answered = record {
  role = supervisor;
  latest_batch_id = "b";
  latest_batch_code = "B-0001";
  batch_completed_at = "2026-06-01T08:00:00Z";
  pending_review_count = 1;
  pending_execution_count = 0;
  pending_result_count = 0;
  clearance_confirm_count = 0;
  notification_failure_count = 0;
  exception_count = 0;
  data_limitations = [];
  items = [];
}

redirected : role_redirect operations (loaded answered) ≡ some "/workbench/supervisor"
unfolding role_redirect
redirected = refl

role_redirect-app_example :
    (app (λ s. some s) "/workbench/supervisor" ≡ workbench supervisor)
    × (role_redirect supervisor (loaded answered) ≡ none)
role_redirect-app_example =
    role_redirect-app (λ s. some s) operations answered "/workbench/supervisor" redirected

initial_filters-links_example :
    (initial_filters (list_actions_query (initial_filters (pending_reviews_query answered)))
      ≡ record unnarrowed { batch_id = "b"; review_status = "pending" })
    × (initial_filters (list_actions_query (initial_filters clearances_query))
        ≡ record unnarrowed { clearance_status = "pending_confirmation" })
initial_filters-links_example = initial_filters-links answered

heading_test : (heading true).1 ≡ "主管审核工作台"
unfolding heading
heading_test = refl
