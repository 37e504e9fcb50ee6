-- ===== src/ActionList/Address.antt =====
-- The address of the action list keeps its filters, and is the query that the client sends.
use profit_decision_engine.Prelude.{
  ℕ, suc, String, List, [], ◌∷◌, true, ◌≡◌, refl, ap, truthy, or_else, lookup,
}
use profit_decision_engine.Prelude.Decimal.{Number, pos, neg, number, number_text, nonzero_or}
use profit_decision_engine.Prelude.DecimalLaws.{
  number-number_text, number_text-truthy, natural, negated,
}
use profit_decision_engine.Prelude.Query.{set_if, get_or_empty}
use profit_decision_engine.Prelude.QueryWrites.{
  write_all, Distinct, get_or_empty-write_all, set-set_if,
}
use profit_decision_engine.Api.Filters.{
  ActionFilters, Tab, mine, all, processing, completed, tab_text, list_actions_query,
}
use profit_decision_engine.ActionList.{initial_filters, page_query, tab_of}

-- The address of the page carries the parameters of the request for the same filters, in the same
-- order.
pub page_query-list_actions_query :
    (filters : ActionFilters) → page_query filters ≡ list_actions_query filters
unfolding page_query list_actions_query
page_query-list_actions_query filters = refl

tab_of-tab_text : (tab : Tab) → tab_of (tab_text tab) ≡ tab
tab_of-tab_text mine = refl
tab_of-tab_text all = refl
tab_of-tab_text processing = refl
tab_of-tab_text completed = refl

tab_text-truthy : (tab : Tab) → truthy (tab_text tab) ≡ true
tab_text-truthy mine = refl
tab_text-truthy all = refl
tab_text-truthy processing = refl
tab_text-truthy completed = refl

abbrev pairs : ActionFilters → List (String × String)
pairs f =
    ("batch_id", f.batch_id)
    ∷ ("tab", tab_text f.tab)
    ∷ ("search", f.search)
    ∷ ("action", f.action)
    ∷ ("store", f.store)
    ∷ ("operator", f.operator)
    ∷ ("review_status", f.review_status)
    ∷ ("business_state", f.business_state)
    ∷ ("inventory_state", f.inventory_state)
    ∷ ("clearance_status", f.clearance_status)
    ∷ ("progress", f.progress)
    ∷ ("page", number_text f.page)
    ∷ ("limit", number_text f.limit)
    ∷ []

page_query-write_all : (f : ActionFilters) → page_query f ≡ write_all (pairs f) []
unfolding page_query
page_query-write_all f =
    rw (set-set_if "limit" (number_text f.limit) _ (number_text-truthy f.limit)) (
      rw (set-set_if "page" (number_text f.page) _ (number_text-truthy f.page)) (
        rw
          (set-set_if "tab" (tab_text f.tab) (set_if "batch_id" f.batch_id [])
            (tab_text-truthy f.tab))
          refl))

pairs-Distinct : (f : ActionFilters) → Distinct (pairs f)
pairs-Distinct f = (
  refl,
  (
    refl,
    (refl, (refl, (refl, (refl, (refl, (refl, (refl, (refl, (refl, (refl, (refl, tt))))))))))),
  ),
)

-- The value of a parameter of the address.
read :
    (j : String) (f : ActionFilters)
    → get_or_empty j (page_query f) ≡ or_else (lookup j (pairs f)) ""
read j f =
    rw (page_query-write_all f) (get_or_empty-write_all j (pairs f) [] (pairs-Distinct f) refl)

-- A page or a limit that the page can hold.
pub data IsCount : Number → Type 0 where
  positive : (n : ℕ) → IsCount (pos (suc n))
  negative : (n : ℕ) → IsCount (neg n)

nonzero_or_of_IsCount : (n : Number) (d : ℕ) → IsCount n → nonzero_or (number (number_text n)) d ≡ n
nonzero_or_of_IsCount n d (positive m) =
    ap (λ x. nonzero_or x d) (number-number_text (pos (suc m)) (natural (suc m)))
nonzero_or_of_IsCount n d (negative m) =
    ap (λ x. nonzero_or x d) (number-number_text (neg m) (negated m))

-- Reading the address that the page wrote gives the same filters back, when page and limit are
-- whole numbers other than zero.
pub initial_filters-page_query :
    (f : ActionFilters) → IsCount f.page → IsCount f.limit → initial_filters (page_query f) ≡ f
unfolding initial_filters
initial_filters-page_query f p l =
    rw
      (
        read "batch_id" f,
        read "tab" f,
        read "search" f,
        read "action" f,
        read "store" f,
        read "operator" f,
        read "review_status" f,
        read "business_state" f,
        read "inventory_state" f,
        read "clearance_status" f,
        read "progress" f,
        read "page" f,
        read "limit" f,
      )
      (rw
        (
          tab_of-tab_text f.tab,
          nonzero_or_of_IsCount f.page 1 p,
          nonzero_or_of_IsCount f.limit 50 l,
        )
        refl)
