-- ===== src/History.antt =====
-- web/src/pages/HistoryPage.tsx: its filters and their address, what a submission does, and what a
-- row shows.
pub mod Laws
pub mod Address
mod Examples
use profit_decision_engine.Prelude.{
  String, ℕ, zero, suc, List, [], ◌∷◌, Option, none, some, Bool, true, false, not, ◌&&◌, ◌||◌, ◌==◌,
  ◌+++◌, eqb, leb, or_else, truthy, lookup, elem, text_lt, if◌then◌else◌,
}
use profit_decision_engine.Prelude.Decimal.{
  Number, nan, pos, neg, fraction, infinite, power, number, number_text, to_decimal, nonzero_or,
}
use profit_decision_engine.Prelude.Query.{Params, set, set_if, get_or_empty}
use profit_decision_engine.Api.Filters.{HistoryFilters}
use profit_decision_engine.Schema.{HistoryItem, ReviewStatus, pending, approved, rejected}

-- `Math.max(1, Number(page) || 1)`
abbrev page_of : Number → Number
page_of nan = pos 1
page_of (pos zero) = pos 1
page_of (pos (suc n)) = pos (suc n)
page_of (neg n) = pos 1
page_of (fraction true m k) = pos 1
page_of (fraction false m k) = if leb (power (suc k)) m then fraction false m k else pos 1
page_of (infinite true) = pos 1
page_of (infinite false) = infinite false

-- `[20, 50, 100].includes(limit) ? limit : 50`
abbrev limit_of : Number → ℕ
limit_of (pos n) = if eqb n 20 || eqb n 50 || eqb n 100 then n else 50
limit_of _ = 50

-- `initialFilters`
unfoldable pub initial_filters : Params → HistoryFilters
unfolding number
initial_filters query = record {
  batch_id = get_or_empty "batch_id" query;
  search = get_or_empty "search" query;
  action = get_or_empty "action" query;
  review_status = get_or_empty "review_status" query;
  execution_state = get_or_empty "execution_state" query;
  period_start = get_or_empty "period_start" query;
  period_end = get_or_empty "period_end" query;
  page = page_of (number (get_or_empty "page" query));
  limit = limit_of (number (get_or_empty "limit" query));
}

-- `value === n`
abbrev is_number : ℕ → Number → Bool
is_number n (pos m) = eqb m n
is_number n _ = false

-- `toQuery`
unfoldable pub to_query : HistoryFilters → Params
to_query f =
    let query = set_if "batch_id" f.batch_id [] in
    let query = set_if "search" f.search query in
    let query = set_if "action" f.action query in
    let query = set_if "review_status" f.review_status query in
    let query = set_if "execution_state" f.execution_state query in
    let query = set_if "period_start" f.period_start query in
    let query = set_if "period_end" f.period_end query in
    let query = if is_number 1 f.page then query else set "page" (number_text f.page) query in
    if eqb f.limit 50 then query else set "limit" (to_decimal f.limit) query

pub record HistoryPage : Type 0 where
  pub draft : HistoryFilters
  pub filters : HistoryFilters
  pub validation : String

unfoldable pub initial_page : Params → HistoryPage
unfolding initial_filters
initial_page query = record {
  draft = initial_filters query;
  filters = initial_filters query;
  validation = "";
}

-- `apply`: the address is replaced by the query of the new filters, `page_address` below.
abbrev apply : HistoryPage → HistoryFilters → HistoryPage
apply page next = record page { draft = next; filters = next }

abbrev period_reversed : HistoryFilters → Bool
period_reversed f =
    truthy f.period_start && (truthy f.period_end && text_lt f.period_end f.period_start)

unfoldable pub submit : HistoryPage → HistoryPage
submit page =
    if period_reversed page.draft
    then record page { validation = "起始业务期间不得晚于结束期间。" }
    else apply (record page { validation = "" }) (record page.draft { page = pos 1 })

abbrev no_filters : HistoryFilters
no_filters = record {
  batch_id = "";
  search = "";
  action = "";
  review_status = "";
  execution_state = "";
  period_start = "";
  period_end = "";
  page = pos 1;
  limit = 50;
}

unfoldable pub reset : HistoryPage → HistoryPage
reset page = apply (record page { validation = "" }) no_filters

-- A change of a field of the form, of the page size, and of the page.
unfoldable pub edit : HistoryPage → HistoryFilters → HistoryPage
edit page draft = record page { draft = draft }

unfoldable pub choose_limit : HistoryPage → ℕ → HistoryPage
choose_limit page limit = apply page (record page.filters { limit = limit; page = pos 1 })

unfoldable pub go_to : HistoryPage → Number → HistoryPage
go_to page number = apply page (record page.filters { page = number })

-- The address that `apply` leaves, given how a query is written.
unfoldable pub page_address : (Params → String) → HistoryFilters → String
unfolding to_query
page_address write filters =
    let text = write (to_query filters) in "/history" +++ (if truthy text then "?" +++ text else "")

unfoldable pub has_filters : HistoryFilters → Bool
has_filters f =
    truthy f.batch_id
    || truthy f.search
    || truthy f.action
    || truthy f.review_status
    || truthy f.execution_state
    || truthy f.period_start
    || truthy f.period_end

-- `milestones`: which of the five are done, in order.
abbrev is_pending : ReviewStatus → Bool
is_pending pending = true
is_pending _ = false

unfoldable pub milestones : HistoryItem → List (String × Bool)
milestones item =
    ("建议生成", true)
    ∷ ("主管审核", not (is_pending item.review_status))
    ∷ (
      "运营动作",
      elem item.business_state ("executed" ∷ "result_recorded" ∷ "closed" ∷ "terminated" ∷ []),
    )
    ∷ (
      "库存协同",
      item.inventory_state == "not_generated"
          || elem item.inventory_state ("processed" ∷ "closed" ∷ "terminated" ∷ []),
    )
    ∷ ("业务结果", item.business_state == "result_recorded" || item.business_state == "closed")
    ∷ []

abbrev pub action_text : List (String × String)
action_text =
    ("clearance", "清仓")
    ∷ ("stop_loss", "推广止损")
    ∷ ("observe", "观察")
    ∷ ("invest", "加投")
    ∷ ("maintain", "维持")
    ∷ ("restock", "补货")
    ∷ ("no_restock", "不补货")
    ∷ ("prohibit_restock", "禁止补货")
    ∷ []

-- `label`
abbrev pub label : Option String → String
label none = "不生成"
label (some value) = if truthy value then or_else (lookup value action_text) value else "不生成"

-- `periodSummary`
unfoldable pub period_summary : HistoryFilters → String
period_summary f =
    if truthy f.period_start || truthy f.period_end
    then (if truthy f.period_start then f.period_start else "最早")
      +++ (" 至 " +++ (if truthy f.period_end then f.period_end else "最新"))
    else "全部业务期间"

-- The link of a row, to the read-only detail; `here` is the path and query of the page.
unfoldable pub row_link : (String → String) → String → HistoryItem → String
row_link encode here item =
    "/suggestions/" +++ (encode item.link_id +++ ("?mode=history&return_to=" +++ encode here))
