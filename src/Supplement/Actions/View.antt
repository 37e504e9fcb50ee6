-- ===== src/Supplement/Actions/View.antt =====
-- The state of ActionListPage.tsx, its query, its rows and their counts.
use profit_decision_engine.Prelude.{
  String, ℕ, List, [], ◌∷◌, Option, none, some, Bool, true, false, not, ◌&&◌, ◌||◌, ◌==◌, ◌+++◌,
  filter, any, elem, length, trim, truthy, includes, or_else,
}
use profit_decision_engine.Prelude.Query.{Params, set, set_if}
use profit_decision_engine.Prelude.Decimal.{to_decimal}
use profit_decision_engine.Supplement.Data.{Decision, ActionItem}
use profit_decision_engine.Supplement.Texts.{fits}

-- The state of the page, and the items that its query has, none of them while a query is new.
pub record ListPage : Type 0 where
  pub main_action : Option String
  pub replenishment : Option String
  pub review : Option String
  pub execution : Option String
  pub batch_filter : Option String
  pub store : Option String
  pub owner : Option String
  pub keyword : String
  pub page : ℕ
  pub page_size : ℕ
  pub source : List Decision

abbrev pub initial : ListPage
initial = record {
  main_action = none;
  replenishment = none;
  review = none;
  execution = none;
  batch_filter = none;
  store = none;
  owner = none;
  keyword = "";
  page = 1;
  page_size = 20;
  source = [];
}

-- `queryString`; an absent value and an empty one are both left out.
unfoldable pub query_string : ListPage → Params
unfolding set set_if to_decimal
query_string page = set_if "review_state" (or_else page.review "") (
    set_if "action" (or_else page.main_action "") (
      set_if "batch_id" (or_else page.batch_filter "")
        (("page", to_decimal page.page) ∷ ("page_size", to_decimal page.page_size) ∷ [])))

abbrev first_batch : List Decision → Option String
first_batch [] = none
first_batch (item ∷ items) = some item.batch_id

-- `a ?? b`, where `b` may be missing too
abbrev or_first : Option String → Option String → Option String
or_first none rest = rest
or_first (some value) rest = some value

-- `activeBatchId`
abbrev pub active_batch_id : ListPage → Option String
active_batch_id page = or_first page.batch_filter (first_batch page.source)

abbrev fits_lane : Option String → List ActionItem → Bool
fits_lane none lanes = true
fits_lane (some wanted) lanes =
    not (truthy wanted) || any (λ lane. lane.execution_state == wanted) lanes

-- A missing operator is written as `undefined`.
abbrev pub searched : Decision → String
searched item =
    item.spu_id +++ (item.spu_name +++ (item.store +++ or_else item.operator_ref "undefined"))

module _ (lower : String → String) where
  unfoldable pub row_passes : ListPage → Decision → Bool
  unfolding trim
  row_passes page item =
      (not (truthy page.keyword) || includes (lower (searched item)) (lower (trim page.keyword)))
      && (fits page.batch_filter (some item.batch_id)
          && (fits page.replenishment (some item.replenishment_action)
              && (fits page.store (some item.store)
                  && (fits page.owner item.operator_ref && fits_lane page.execution item.actions))))

  unfoldable pub rows : ListPage → List Decision
  unfolding row_passes
  rows page = filter (row_passes page) page.source

-- The three counts
abbrev is_urgent : Decision → Bool
is_urgent item = elem (or_else item.main_action "") ("clearance" ∷ "stop_loss" ∷ [])

abbrev is_pending : Option String → Bool
is_pending none = false
is_pending (some state) = state == "pending"

abbrev is_blocked : ActionItem → Bool
is_blocked lane = elem lane.execution_state ("blocked" ∷ "failed" ∷ [])

unfoldable pub urgent_count : List Decision → ℕ
urgent_count source = length (filter is_urgent source)

unfoldable pub pending_count : List Decision → ℕ
pending_count source = length (filter (λ item. is_pending item.review_state) source)

unfoldable pub blocked_count : List Decision → ℕ
blocked_count source = length (filter (λ item. any is_blocked item.actions) source)
