-- ===== src/Suggestion/Examples.antt =====
-- Tests of the detail page, and its theorems on a concrete page.
use profit_decision_engine.Prelude.{
  String, List, [], ◌∷◌, Option, none, some, true, false, ◌≡◌, ◌↔◌, refl,
}
use profit_decision_engine.Api.{Request, business, inventory, execute_action}
use profit_decision_engine.Suggestion.Feedback.{
  Browser, Failure, business_failure, Outcome, refused, updated,
}
use profit_decision_engine.Suggestion.Page.{
  DetailPage, Event, step, answer, requests, executed, pressed_operation, executing, wrote,
  pressed_review,
}
use profit_decision_engine.Suggestion.Allowed.{Allowed}
use profit_decision_engine.Suggestion.Commands.{step-Allowed}
use profit_decision_engine.Suggestion.Traces.{inputs, answer-inputs, requests-history_mode}
use profit_decision_engine.Suggestion.Repeats.{step-repeat, submission-unavailable}
use profit_decision_engine.Suggestion.Operations.{submission}
use profit_decision_engine.Suggestion.Samples.{page, browser}

-- The operator records the business action with the version that the page shows.
abbrev record_business : Request
record_business = execute_action (λ s. s) "k1" "t1" business 7 "lowered the bid"

abbrev press : Event
press = pressed_operation (executing business true)

step_test : (step browser press page).1 ≡ some record_business
unfolding step profit_decision_engine.Suggestion.Feedback.blank profit_decision_engine.Prelude.trim
step_test = refl

-- An inventory action needs a note, and an operator cannot review.
refusal_tests :
    ((step browser (pressed_operation (executing inventory true)) page).1 ≡ none)
    × ((step browser (pressed_review true) page).1 ≡ none)
unfolding step profit_decision_engine.Suggestion.Feedback.blank profit_decision_engine.Prelude.trim
refusal_tests = (refl, refl)

step-Allowed_example : Allowed browser page record_business
step-Allowed_example = step-Allowed browser page press record_business step_test

abbrev conflict : Failure
conflict = business_failure "version_conflict" none

answer-inputs_example :
    (inputs (answer browser executed (refused conflict) page) ≡ inputs page)
    × ((answer browser executed (refused conflict) page).review_choice ≡ page.review_choice)
    × ((f : Failure)
        → refused conflict ≡ refused f
        → (answer browser executed (refused conflict) page).detail ≡ page.detail)
answer-inputs_example = answer-inputs browser executed (refused conflict) page

abbrev archived : DetailPage
archived = record page { history_mode = true }

requests-history_mode_example :
    requests browser archived (press ∷ wrote "x" ∷ pressed_review true ∷ []) ≡ []
requests-history_mode_example =
    requests-history_mode browser archived (press ∷ wrote "x" ∷ pressed_review true ∷ []) refl

sent_test : requests browser page (wrote "x" ∷ press ∷ press ∷ []) ≡ record_business ∷ []
unfolding requests profit_decision_engine.Suggestion.Feedback.blank
    profit_decision_engine.Prelude.trim
sent_test = refl

step-repeat_example : (step browser press (step browser press page).0).1 ≡ none
step-repeat_example = step-repeat browser page press record_business step_test

submission-unavailable_case :
    (((submission browser page.detail page.operating).sales_value ≡ none)
      ↔ ((submission browser page.detail page.operating).sales_unavailable ≡ true))
    × (((submission browser page.detail page.operating).profit_value ≡ none)
        ↔ ((submission browser page.detail page.operating).profit_unavailable ≡ true))
    × (((submission browser page.detail page.operating).inventory_value ≡ none)
        ↔ ((submission browser page.detail page.operating).inventory_unavailable ≡ true))
submission-unavailable_case = submission-unavailable browser page.detail page.operating
