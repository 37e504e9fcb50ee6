-- ===== src/ActionList.antt =====
-- web/src/pages/ActionListPage.tsx: the filters of the page, the address they are kept in, and what
-- the page shows about batches and pages.
pub mod Address
pub mod Laws
mod Examples
use profit_decision_engine.Prelude.{
  String, ℕ, zero, suc, ◌+◌, ◌-◌, ◌*◌, ◌/◌, List, [], ◌∷◌, Option, none, some, Bool, true, false,
  not, ◌&&◌, ◌||◌, ◌==◌, or_else, truthy, lookup, filter, find, map, leb, is_some, if◌then◌else◌,
  ◌+++◌,
}
use profit_decision_engine.Prelude.NumberOrder.{at_most}
use profit_decision_engine.Prelude.Decimal.{
  Number, nan, pos, neg, fraction, infinite, power, number, number_text, nonzero_or,
}
use profit_decision_engine.Prelude.Query.{Params, set, set_if, get_or_empty}
use profit_decision_engine.Batches.{
  BatchSummary, BatchStatus, received, processing, ready, failed, is_ready, latest_ready_batch,
}
use profit_decision_engine.Api.Filters.{ActionFilters, Tab, mine, all, completed, tab_text}
use profit_decision_engine.Access.Session.{Query, pending, loaded}

abbrev pub tab_of : String → Tab
tab_of raw =
    if raw == "all"
    then all
    else if raw == "processing"
    then Tab.processing
    else if raw == "completed"
    then completed
    else mine

-- `initialFilters`, from the parameters of the address
unfoldable pub initial_filters : Params → ActionFilters
unfolding number
initial_filters query = record {
  batch_id = get_or_empty "batch_id" query;
  tab = tab_of (get_or_empty "tab" query);
  search = get_or_empty "search" query;
  action = get_or_empty "action" query;
  store = get_or_empty "store" query;
  operator = get_or_empty "operator" query;
  review_status = get_or_empty "review_status" query;
  business_state = get_or_empty "business_state" query;
  inventory_state = get_or_empty "inventory_state" query;
  clearance_status = get_or_empty "clearance_status" query;
  progress = get_or_empty "progress" query;
  page = nonzero_or (number (get_or_empty "page" query)) 1;
  limit = nonzero_or (number (get_or_empty "limit" query)) 50;
}

-- The effect that keeps the address: the parameters it writes.
unfoldable pub page_query : ActionFilters → Params
page_query filters =
    let params = set_if "batch_id" filters.batch_id [] in
    let params = set "tab" (tab_text filters.tab) params in
    let params = set_if "search" filters.search params in
    let params = set_if "action" filters.action params in
    let params = set_if "store" filters.store params in
    let params = set_if "operator" filters.operator params in
    let params = set_if "review_status" filters.review_status params in
    let params = set_if "business_state" filters.business_state params in
    let params = set_if "inventory_state" filters.inventory_state params in
    let params = set_if "clearance_status" filters.clearance_status params in
    let params = set_if "progress" filters.progress params in
    let params = set "page" (number_text filters.page) params in
    set "limit" (number_text filters.limit) params

-- `Math.max(1, Math.ceil(total / limit))`; a limit that is not a number, or zero, gives none.
unfoldable pub pages : ℕ → Number → Number
pages total nan = nan
pages total (pos zero) = nan
pages total (pos (suc n)) = let full = (total + n) / suc n in if leb 1 full then pos full else pos 1
pages total (neg n) = pos 1
pages total (fraction true m k) = pos 1
pages total (fraction false m k) =
    let full = (total * power (suc k) + (m - 1)) / m in if leb 1 full then pos full else pos 1
pages total (infinite minus) = pos 1

-- The changes that the page makes: `Partial<ActionFilters>`.
pub data Part : Type 0 where
  set_batch set_search set_action set_store set_operator set_review_status : String → Part
  set_business_state set_inventory_state set_clearance_status set_progress : String → Part
  set_tab : Tab → Part
  set_limit : Number → Part
  set_page : Number → Part
  clear : Part

abbrev merged : ActionFilters → Part → ActionFilters
merged f (set_batch v) = record f { batch_id = v }
merged f (set_search v) = record f { search = v }
merged f (set_action v) = record f { action = v }
merged f (set_store v) = record f { store = v }
merged f (set_operator v) = record f { operator = v }
merged f (set_review_status v) = record f { review_status = v }
merged f (set_business_state v) = record f { business_state = v }
merged f (set_inventory_state v) = record f { inventory_state = v }
merged f (set_clearance_status v) = record f { clearance_status = v }
merged f (set_progress v) = record f { progress = v }
merged f (set_tab v) = record f { tab = v }
merged f (set_limit v) = record f { limit = v }
merged f (set_page v) = record f { page = v }
merged f clear = record f {
  search = "";
  action = "";
  store = "";
  operator = "";
  review_status = "";
  business_state = "";
  inventory_state = "";
  clearance_status = "";
  progress = "";
}

-- `part.page ?? 1`
abbrev part_page : Part → Number
part_page (set_page v) = v
part_page _ = pos 1

unfoldable pub update : ActionFilters → Part → ActionFilters
update filters part = record (merged filters part) { page = part_page part }

-- The filters of the request that counts a tab.
abbrev pub count_filters : ActionFilters → Tab → ActionFilters
count_filters filters tab = record filters { tab = tab; page = pos 1; limit = pos 20 }

unfoldable pub has_narrowing : ActionFilters → Bool
has_narrowing f =
    truthy f.search
    || truthy f.action
    || truthy f.store
    || truthy f.operator
    || truthy f.review_status
    || truthy f.business_state
    || truthy f.inventory_state
    || truthy f.clearance_status
    || truthy f.progress

abbrev pub ready_batches : List BatchSummary → List BatchSummary
ready_batches = filter (λ b. is_ready b.status)

-- `historical`: the chosen batch is not the latest ready one.
abbrev differs_from : String → Option BatchSummary → Bool
differs_from id none = false
differs_from id (some latest) = truthy id && not (id == latest.id)

unfoldable pub historical : ActionFilters → List BatchSummary → Bool
unfolding latest_ready_batch
historical filters items = differs_from filters.batch_id (latest_ready_batch (ready_batches items))

-- `activeBatch`
unfoldable pub active_batch : ActionFilters → List BatchSummary → Option BatchSummary
unfolding latest_ready_batch
active_batch filters items =
    if truthy filters.batch_id
    then find (λ b. b.id == filters.batch_id) (ready_batches items)
    else latest_ready_batch (ready_batches items)

-- The warning about the newest batch: its code and what it says of it.
abbrev newest_text : BatchStatus → Option String
newest_text received = some "规则处理中"
newest_text BatchStatus.processing = some "规则处理中"
newest_text ready = none
newest_text failed = some "处理失败"

unfoldable pub newest_warning : ActionFilters → List BatchSummary → Option (String × String)
newest_warning filters [] = none
newest_warning filters (b ∷ rest) = elim (newest_text b.status) [
  | none ↦ none
  | some text ↦ if truthy filters.batch_id then none else some (b.code, text)
]

-- What stands below the filters, for the items that the query answers with.
pub data Listing : Type 0 where
  loading broken no_match none_for_me none_in_range table : Listing

unfoldable pub listing {ℓ} : {A : Type ℓ} → ActionFilters → Query (List A) → Listing
unfolding has_narrowing
listing filters pending = loading
listing filters (Query.failed message) = broken
listing filters (loaded []) =
    if has_narrowing filters
    then no_match
    else if tab_text filters.tab == "mine"
    then none_for_me
    else none_in_range
listing filters (loaded (item ∷ items)) = table

-- The buttons of the footer: `filters.page <= 1` and `filters.page >= pages`
abbrev pub previous_disabled : ActionFilters → Bool
previous_disabled filters = at_most filters.page (pos 1)

unfoldable pub next_disabled : ActionFilters → ℕ → Bool
unfolding pages
next_disabled filters total = at_most (pages total filters.limit) filters.page

-- `filters.page - 1` and `filters.page + 1`
abbrev pub pred : Number → Number
pred nan = nan
pred (pos zero) = neg 0
pred (pos (suc n)) = pos n
pred (neg n) = neg (suc n)
pred (infinite minus) = infinite minus
pred (fraction true m k) = fraction true (m + power (suc k)) k
pred (fraction false m k) =
    if leb (power (suc k)) m
    then fraction false (m - power (suc k)) k
    else fraction true (power (suc k) - m) k

abbrev pub next : Number → Number
next nan = nan
next (pos n) = pos (suc n)
next (neg zero) = pos 0
next (neg (suc n)) = neg n
next (infinite minus) = infinite minus
next (fraction false m k) = fraction false (m + power (suc k)) k
next (fraction true m k) =
    if leb (power (suc k)) m
    then fraction true (m - power (suc k)) k
    else fraction false (power (suc k) - m) k

abbrev pub previous_page : ActionFilters → ActionFilters
unfolding update
previous_page filters = update filters (set_page (pred filters.page))

abbrev pub next_page : ActionFilters → ActionFilters
unfolding update
next_page filters = update filters (set_page (next filters.page))
