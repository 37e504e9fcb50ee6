-- ===== src/Workbench/Links.antt =====
-- The links of the supervisor's workbench into the action list. Their queries are written here as the
-- parameters that the browser reads of them; an identifier of a batch has no reserved characters.
use profit_decision_engine.Prelude.{[], ◌∷◌, ◌≡◌, refl}
use profit_decision_engine.Prelude.Query.{Params}
use profit_decision_engine.Prelude.Decimal.{pos}
use profit_decision_engine.Schema.{Workbench}
use profit_decision_engine.Api.Filters.{ActionFilters, mine, list_actions_query}
use profit_decision_engine.ActionList.{initial_filters}
use profit_decision_engine.ActionList.Address.{
  IsCount, initial_filters-page_query, page_query-list_actions_query,
}

-- `/actions?batch_id=…&review_status=pending`
unfoldable pub pending_reviews_query : Workbench → Params
pending_reviews_query loaded =
    ("batch_id", loaded.latest_batch_id) ∷ ("review_status", "pending") ∷ []

-- `/actions?clearance_status=pending_confirmation`
unfoldable pub clearances_query : Params
clearances_query = ("clearance_status", "pending_confirmation") ∷ []

-- The filters of the action list with nothing narrowed.
abbrev pub unnarrowed : ActionFilters
unnarrowed = record {
  batch_id = "";
  tab = mine;
  search = "";
  action = "";
  store = "";
  operator = "";
  review_status = "";
  business_state = "";
  inventory_state = "";
  clearance_status = "";
  progress = "";
  page = pos 1;
  limit = pos 50;
}

pending_reviews :
    (loaded : Workbench)
    → initial_filters (pending_reviews_query loaded)
      ≡ record unnarrowed { batch_id = loaded.latest_batch_id; review_status = "pending" }
unfolding initial_filters pending_reviews_query
pending_reviews loaded = refl

clearances :
    initial_filters clearances_query
    ≡ record unnarrowed { clearance_status = "pending_confirmation" }
unfolding initial_filters clearances_query
clearances = refl

opened_request :
    (f : ActionFilters) (query : Params)
    → IsCount f.page
    → IsCount f.limit
    → initial_filters query ≡ f
    → initial_filters (list_actions_query (initial_filters query)) ≡ f
opened_request f query p l e =
    let same = page_query-list_actions_query f in rw (e, ← same) (initial_filters-page_query f p l)

-- The request that the action list sends when it is opened by the link to all pending reviews asks
-- for the pending reviews of the batch that the workbench shows, by the link to the clearances for
-- those that wait for a confirmation, with no batch named; both ask for the first page of the tasks
-- of the user, narrowed by nothing else. What a request asks for is read off its query.
pub initial_filters-links :
    (loaded : Workbench)
    → (initial_filters (list_actions_query (initial_filters (pending_reviews_query loaded)))
        ≡ record unnarrowed { batch_id = loaded.latest_batch_id; review_status = "pending" })
      × (initial_filters (list_actions_query (initial_filters clearances_query))
          ≡ record unnarrowed { clearance_status = "pending_confirmation" })
initial_filters-links loaded = (
  opened_request
      (record unnarrowed { batch_id = loaded.latest_batch_id; review_status = "pending" })
      (pending_reviews_query loaded) (IsCount.positive 0) (IsCount.positive 49)
      (pending_reviews loaded),
  opened_request (record unnarrowed { clearance_status = "pending_confirmation" }) clearances_query
      (IsCount.positive 0) (IsCount.positive 49) clearances,
)
