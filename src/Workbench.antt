-- ===== src/Workbench.antt =====
-- web/src/pages/WorkbenchPage.tsx: the filtered and ordered tasks, the redirect of the wrong role, the
-- risk counts and recent reviews.
pub mod Order
pub mod Laws
pub mod View
pub mod Links
mod Examples
use profit_decision_engine.Prelude.{
  String, ℕ, zero, suc, List, [], ◌∷◌, Option, none, some, Bool, true, false, not, ◌&&◌, ◌||◌, ◌==◌,
  truthy, includes, lookup, or_else, filter, map, length, leb, take, if◌then◌else◌,
}
use profit_decision_engine.Access.Session.{
  BusinessRole, operations, supervisor, is_supervisor, workbench_path, Query, pending, failed,
  loaded,
}
use profit_decision_engine.Schema.{ActionItem, Workbench, ReviewStatus}
use profit_decision_engine.Suggestion.Feedback.{is_text, is_pending_review}

-- `statePriority`; the states of the API are none of the names that every object inherits.
abbrev state_priorities : List (String × ℕ)
state_priorities =
    ("pending_execution", 1)
    ∷ ("executed", 2)
    ∷ ("result_recorded", 3)
    ∷ ("closed", 4)
    ∷ ("terminated", 5)
    ∷ []

unfoldable pub state_priority : String → ℕ
state_priority value = or_else (lookup value state_priorities) 9

abbrev pub priority : ActionItem → ℕ
priority item = state_priority item.business_state

-- The filters of the page: search text, action and state.
pub record WorkbenchFilters : Type 0 where
  pub search : String
  pub action : String
  pub business_state : String

unfoldable pub matches : WorkbenchFilters → ActionItem → Bool
matches f item =
    (not (truthy f.search) || includes item.spu_id f.search || includes item.name f.search)
    && ((not (truthy f.action)
          || is_text item.effective_business_action f.action
          || is_text item.effective_inventory_action f.action)
        && (not (truthy f.business_state) || item.business_state == f.business_state))

-- `Array.prototype.sort` by the priority: it is stable, so equal items keep their order.
unfoldable pub insert : ActionItem → List ActionItem → List ActionItem
insert x [] = x ∷ []
insert x (y ∷ ys) =
    let rest = insert x ys in if leb (priority x) (priority y) then x ∷ y ∷ ys else y ∷ rest

unfoldable pub sort : List ActionItem → List ActionItem
unfolding insert
sort [] = []
sort (x ∷ xs) = insert x (sort xs)

-- `filteredItems`
unfoldable pub filtered_items : WorkbenchFilters → List ActionItem → List ActionItem
unfolding sort matches
filtered_items f items = sort (filter (matches f) items)

-- The redirect when the workbench of the other role answers.
abbrev same_role : BusinessRole → BusinessRole → Bool
same_role operations operations = true
same_role supervisor supervisor = true
same_role _ _ = false

unfoldable pub role_redirect : BusinessRole → Query Workbench → Option String
role_redirect expected pending = none
role_redirect expected (failed message) = none
role_redirect expected (loaded data_) =
    if same_role data_.role expected then none else some (workbench_path data_.role)

-- `risks`: the pending reviews of each of four actions.
abbrev pub at_risk : String → ActionItem → Bool
at_risk action item =
    is_pending_review item.review_status && is_text item.effective_business_action action

unfoldable pub risks : List ActionItem → List (String × ℕ)
risks items =
    map (λ action. (action, length (filter (at_risk action) items)))
      ("clearance" ∷ "stop_loss" ∷ "observe" ∷ "invest" ∷ [])

-- `RecentReviews`
unfoldable pub recent_reviews : List ActionItem → List ActionItem
recent_reviews items = take 3 (filter (λ item. not (is_pending_review item.review_status)) items)
