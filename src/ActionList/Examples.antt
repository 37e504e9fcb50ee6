-- ===== src/ActionList/Examples.antt =====
-- Tests of the action list, and its theorems on concrete filters.
use mathlib.Core.List.{Memᴰ}
use profit_decision_engine.Prelude.{
  String, ℕ, List, [], ◌∷◌, some, none, true, false, ◌≡◌, refl, truthy, arith, ◌≤◌, ◌+◌, ◌-◌, ◌⊎◌,
}
use profit_decision_engine.Prelude.Decimal.{Number, fraction, pos, neg, number_text}
use profit_decision_engine.Prelude.Query.{Params, get_or_empty}
use profit_decision_engine.Batches.{is_ready, latest_ready_batch}
use profit_decision_engine.Batches.Latest.{IsNewest}
use profit_decision_engine.Batches.Samples.{may, june, listed}
use profit_decision_engine.Api.Filters.{ActionFilters, all, list_actions_query}
use profit_decision_engine.ActionList.{
  initial_filters, page_query, pages, update, clear, has_narrowing, ready_batches, historical,
  active_batch, next_disabled, previous_disabled, next_page, previous_page,
}
use profit_decision_engine.ActionList.Address.{
  page_query-list_actions_query, initial_filters-page_query, positive,
}
use profit_decision_engine.ActionList.Laws.{
  latest_ready_batch-ready_batches, active_batch-ready, update-clear, Holds, twenty, pages-least,
  pages_in_range,
}

abbrev filters : ActionFilters
filters = record {
  batch_id = "a";
  tab = all;
  search = "x&y";
  action = "";
  store = "";
  operator = "";
  review_status = "pending";
  business_state = "";
  inventory_state = "";
  clearance_status = "";
  progress = "";
  page = pos 2;
  limit = pos 20;
}

query_test :
    page_query filters
    ≡ ("batch_id", "a")
      ∷ ("tab", "all")
      ∷ ("search", "x&y")
      ∷ ("review_status", "pending")
      ∷ ("page", "2")
      ∷ ("limit", "20")
      ∷ []
unfolding page_query profit_decision_engine.Prelude.Query.set
    profit_decision_engine.Prelude.Query.set_if profit_decision_engine.Prelude.Decimal.to_decimal
query_test = refl

fraction_page_test : (initial_filters (("page", "1.5") ∷ [])).page ≡ fraction false 15 0
unfolding initial_filters
fraction_page_test = refl

negative_page_test : (initial_filters (("page", "-3") ∷ [])).page ≡ neg 2
unfolding initial_filters
negative_page_test = refl

page_query-list_actions_query_case : page_query filters ≡ list_actions_query filters
page_query-list_actions_query_case = page_query-list_actions_query filters

initial_filters-page_query_example : initial_filters (page_query filters) ≡ filters
initial_filters-page_query_example = initial_filters-page_query filters (positive 1) (positive 19)

latest_ready_batch-ready_batches_case :
    latest_ready_batch (ready_batches listed) ≡ latest_ready_batch listed
latest_ready_batch-ready_batches_case = latest_ready_batch-ready_batches listed

active_batch_test : active_batch filters listed ≡ some may
unfolding active_batch
active_batch_test = refl

latest_test : latest_ready_batch listed ≡ some june
unfolding latest_ready_batch
latest_test = refl

active_batch-ready_example :
    Memᴰ may listed
    × (is_ready may.status ≡ true)
    × ((truthy filters.batch_id ≡ true) × (may.id ≡ filters.batch_id)
        ⊎ (truthy filters.batch_id ≡ false) × IsNewest listed may)
active_batch-ready_example = active_batch-ready filters listed may active_batch_test

historical_test : historical filters listed ≡ true
unfolding historical
historical_test = refl

update-clear_case :
    (has_narrowing (update filters clear) ≡ false)
    × ((update filters clear).page ≡ pos 1)
    × ((update filters clear).batch_id ≡ filters.batch_id)
    × ((update filters clear).tab ≡ filters.tab)
    × ((update filters clear).limit ≡ filters.limit)
update-clear_case = update-clear filters

pages-least_example : Holds 41 (pos 20) (pages 41 (pos 20))
pages-least_example = pages-least 41 (pos 20) twenty

pages_test : pages 41 (pos 20) ≡ pos 3
unfolding pages
pages_test = refl

pages_in_range_example :
    (next_disabled filters 41 ≡ false → ((next_page filters).page ≡ pos 3) × (3 ≤ 3))
    × (previous_disabled filters ≡ false → ((previous_page filters).page ≡ pos 1) × (1 ≤ 1))
pages_in_range_example = pages_in_range filters 41 2 3 refl pages_test (omega arith) (omega arith)
