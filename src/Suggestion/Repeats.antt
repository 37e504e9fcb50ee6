-- ===== src/Suggestion/Repeats.antt =====
-- While a command runs, its control sends nothing more.
use profit_decision_engine.Prelude.{
  String, get_elem?, Option, none, some, Bool, true, not, ◌≡◌, refl, ◌↔◌, arith, truthy, inl, inr,
  Bool-cases,
}
use profit_decision_engine.Schema.{SuggestionDetail, OaNotification, ClearanceCompletion}
use profit_decision_engine.Api.{Request, Track, ClearanceDecision, confirmed, returned}
use profit_decision_engine.Suggestion.Feedback.{Browser}
use profit_decision_engine.Suggestion.Operations.{
  OperationsPanel, press_execute, execute, press_result, press_clearance, press_oa_send,
  press_oa_retry, resend, submission, figure_of,
}
use profit_decision_engine.Suggestion.Supervisor.{
  SupervisorPanel, press_override, press_terminate, press_review, review_completion, can_decide,
}
use profit_decision_engine.Suggestion.Page.{
  DetailPage, Event, step, press_submit_review, submit_review, press_ai_retry, shows_operations,
  shows_supervision, operate, supervise, chose, wrote, edited_operations, edited_supervision,
  pressed_review, pressed_ai_retry, pressed_operation, pressed_supervision, answered, Operation,
  executing, saving_result, submitting_clearance, sending, resending, Supervision, overriding,
  terminating, deciding,
}

module _ (browser : Browser) (detail : SuggestionDetail) (r : Request) where
  press_execute-repeat :
      (track : Track) (agreed : Bool) (panel : OperationsPanel)
      → (press_execute browser detail track agreed panel).1 ≡ some r
      → (press_execute browser detail track agreed
          (press_execute browser detail track agreed panel).0).1
        ≡ none
  unfolding press_execute execute
  press_execute-repeat track agreed panel e = ground arith

  press_result-repeat :
      (agreed : Bool) (panel : OperationsPanel)
      → (press_result browser detail agreed panel).1 ≡ some r
      → (press_result browser detail agreed (press_result browser detail agreed panel).0).1 ≡ none
  unfolding press_result
  press_result-repeat agreed panel e = ground arith

  press_clearance-repeat :
      (agreed : Bool) (panel : OperationsPanel)
      → (press_clearance browser detail agreed panel).1 ≡ some r
      → (press_clearance browser detail agreed (press_clearance browser detail agreed panel).0).1
        ≡ none
  unfolding press_clearance
  press_clearance-repeat agreed panel e = ground arith

  press_oa_send-repeat :
      (panel : OperationsPanel)
      → (press_oa_send browser detail panel).1 ≡ some r
      → (press_oa_send browser detail (press_oa_send browser detail panel).0).1 ≡ none
  unfolding press_oa_send
  press_oa_send-repeat panel e = ground arith

  resend-repeat :
      (n m : Option OaNotification) (panel : OperationsPanel)
      → (resend browser detail n panel).1 ≡ some r
      → (resend browser detail m (resend browser detail n panel).0).1 ≡ none
  unfolding resend
  resend-repeat n none panel e = refl
  resend-repeat none (some m) panel e = cc
  resend-repeat (some n) (some m) panel e = ground arith

  press_override-repeat :
      (agreed : Bool) (panel : SupervisorPanel)
      → (press_override browser detail agreed panel).1 ≡ some r
      → (press_override browser detail agreed (press_override browser detail agreed panel).0).1
        ≡ none
  unfolding press_override
  press_override-repeat agreed panel e = ground arith

  press_terminate-repeat :
      (agreed : Bool) (panel : SupervisorPanel)
      → (press_terminate browser detail agreed panel).1 ≡ some r
      → (press_terminate browser detail agreed (press_terminate browser detail agreed panel).0).1
        ≡ none
  unfolding press_terminate
  press_terminate-repeat agreed panel e = ground arith

  review_completion-repeat :
      (d : ClearanceDecision) (o : Option ClearanceCompletion) (panel : SupervisorPanel)
      → (review_completion browser o detail d panel).1 ≡ some r
      → (review_completion browser o detail d (review_completion browser o detail d panel).0).1
        ≡ none
  unfolding review_completion can_decide
  review_completion-repeat d none panel e = refl
  review_completion-repeat confirmed (some c) panel e = ground arith
  review_completion-repeat returned (some c) panel e = ground arith

operate-repeat :
    (browser : Browser) (page : DetailPage) (o : Operation) (r : Request)
    → (operate browser o page).1 ≡ some r
    → (operate browser o (record page { operating = (operate browser o page).0 })).1 ≡ none
unfolding operate press_oa_retry
operate-repeat b page (executing track agreed) r e =
    press_execute-repeat b page.detail r track agreed page.operating e
operate-repeat b page (saving_result agreed) r e =
    press_result-repeat b page.detail r agreed page.operating e
operate-repeat b page (submitting_clearance agreed) r e =
    press_clearance-repeat b page.detail r agreed page.operating e
operate-repeat b page sending r e = press_oa_send-repeat b page.detail r page.operating e
operate-repeat b page (resending n) r e =
    resend-repeat b page.detail r (get_elem? page.detail.notifications n)
      (get_elem? page.detail.notifications n) page.operating e

supervise-repeat :
    (browser : Browser) (page : DetailPage) (s : Supervision) (r : Request)
    → (supervise browser s page).1 ≡ some r
    → (supervise browser s (record page { supervising = (supervise browser s page).0 })).1 ≡ none
unfolding supervise press_review
supervise-repeat b page (overriding agreed) r e =
    press_override-repeat b page.detail r agreed page.supervising e
supervise-repeat b page (terminating agreed) r e =
    press_terminate-repeat b page.detail r agreed page.supervising e
supervise-repeat b page (deciding d) r e =
    review_completion-repeat b page.detail r d page.detail.clearance_completion page.supervising e

press_submit_review-repeat :
    (browser : Browser) (page : DetailPage) (agreed : Bool) (r : Request)
    → (press_submit_review browser agreed page).1 ≡ some r
    → (press_submit_review browser agreed (press_submit_review browser agreed page).0).1 ≡ none
unfolding press_submit_review submit_review
press_submit_review-repeat b page agreed r e = ground arith

press_ai_retry-repeat :
    (browser : Browser) (page : DetailPage) (r : Request)
    → (press_ai_retry browser page).1 ≡ some r
    → (press_ai_retry browser (press_ai_retry browser page).0).1 ≡ none
unfolding press_ai_retry
press_ai_retry-repeat b page r e = ground arith

-- An event that sends a request sends nothing when it is repeated at once, before an answer.
pub step-repeat :
    (browser : Browser) (page : DetailPage) (event : Event) (r : Request)
    → (step browser event page).1 ≡ some r
    → (step browser event (step browser event page).0).1 ≡ none
unfolding step
step-repeat b page (chose d) r e = refl
step-repeat b page (wrote t) r e = refl
step-repeat b page (edited_operations p) r e = refl
step-repeat b page (edited_supervision p) r e = refl
step-repeat b page (pressed_review agreed) r e = press_submit_review-repeat b page agreed r e
step-repeat b page pressed_ai_retry r e = press_ai_retry-repeat b page r e
step-repeat b page (pressed_operation o) r e = elim (Bool-cases (shows_operations page)) [
  | inl h ↦ rw h (rw h (operate-repeat b page o r (rw h at e)))
  | inr h ↦ cc (let g : none ≡ some r = rw h at e in g)
]
step-repeat b page (pressed_supervision s) r e = elim (Bool-cases (shows_supervision page)) [
  | inl h ↦ rw h (rw h (supervise-repeat b page s r (rw h at e)))
  | inr h ↦ cc (let g : none ≡ some r = rw h at e in g)
]
step-repeat b page (answered c o) r e = refl

figure_of-eq-none_iff :
    (f : String → String) (s : String) → (figure_of f s ≡ none) ↔ (not (truthy s) ≡ true)
figure_of-eq-none_iff f s = elim (Bool-cases (truthy s)) [
  | inl e ↦ rw e ((λ x. cc), (λ x. cc))
  | inr e ↦ rw e ((λ x. refl), (λ x. refl))
]

-- In a submitted result, each of the three figures is left out exactly when it is marked as
-- unavailable.
pub submission-unavailable :
    (browser : Browser) (detail : SuggestionDetail) (panel : OperationsPanel)
    → (((submission browser detail panel).sales_value ≡ none)
        ↔ ((submission browser detail panel).sales_unavailable ≡ true))
      × (((submission browser detail panel).profit_value ≡ none)
          ↔ ((submission browser detail panel).profit_unavailable ≡ true))
      × (((submission browser detail panel).inventory_value ≡ none)
          ↔ ((submission browser detail panel).inventory_unavailable ≡ true))
submission-unavailable browser detail panel = (
  figure_of-eq-none_iff browser.figure panel.sales,
  figure_of-eq-none_iff browser.figure panel.profit,
  figure_of-eq-none_iff browser.figure panel.stock,
)
