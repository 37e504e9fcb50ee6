-- ===== src/Suggestion/Commands.antt =====
-- Every step of the detail page sends only what is allowed.
use profit_decision_engine.Prelude.{
  Option, none, some, Bool, true, false, ◌&&◌, ◌≡◌, refl, arith, inl, inr, Bool-cases,
}
use profit_decision_engine.Access.Session.{BusinessRole, operations, supervisor}
use profit_decision_engine.Schema.{ReviewStatus, pending, ClearanceCompletion}
use profit_decision_engine.Api.{
  Request, business, inventory, ClearanceDecision, returned, confirmed, review_suggestion,
}
use profit_decision_engine.Suggestion.Feedback.{Browser, blank, is_pending_review}
use profit_decision_engine.Suggestion.Supervisor.{can_decide, press_review, review_completion}
use profit_decision_engine.Suggestion.Page.{
  DetailPage, Event, step, press_submit_review, submit_review, press_ai_retry, shows_supervision,
  shows_operations, supervises, operates, is_reject, operate, supervise, Operation, executing,
  saving_result, submitting_clearance, sending, resending, Supervision, overriding, terminating,
  deciding, chose, wrote, edited_operations, edited_supervision, pressed_review, pressed_ai_retry,
  pressed_operation, pressed_supervision, answered,
}
use profit_decision_engine.Suggestion.Laws.{
  press_execute-some, press_result-some, press_clearance-some, press_oa_send-some,
  press_oa_retry-some, press_override-some, press_terminate-some, review_completion-some,
}
use profit_decision_engine.Suggestion.Allowed.{
  ActsAs, Allowed, review, override, terminate, review_clearance, execute_business,
  execute_inventory, save_result, submit_clearance, send_oa, retry_oa, retry_ai,
}

supervises-true :
    (role : Option BusinessRole) (history_mode : Bool)
    → supervises role history_mode ≡ true
    → (history_mode ≡ false) × (role ≡ some supervisor)
supervises-true none m h = cc
supervises-true (some operations) m h = cc
supervises-true (some supervisor) false h = (refl, refl)
supervises-true (some supervisor) true h = cc

operates-true :
    (role : Option BusinessRole) (history_mode : Bool)
    → operates role history_mode ≡ true
    → (history_mode ≡ false) × (role ≡ some operations)
operates-true none m h = cc
operates-true (some supervisor) m h = cc
operates-true (some operations) false h = (refl, refl)
operates-true (some operations) true h = cc

is_pending_review-true : (s : ReviewStatus) → is_pending_review s ≡ true → s ≡ pending
is_pending_review-true pending h = refl
is_pending_review-true ReviewStatus.approved h = cc
is_pending_review-true ReviewStatus.rejected h = cc

module _ (browser : Browser) where
  open browser use {encode, key, instant}

  shows_supervision-ActsAs :
      (page : DetailPage) → shows_supervision page ≡ true → ActsAs supervisor page
  shows_supervision-ActsAs page h =
      let (c, q) = supervises-true page.role page.history_mode h in
      record { current = c; holds = q }

  shows_operations-ActsAs :
      (page : DetailPage) → shows_operations page ≡ true → ActsAs operations page
  shows_operations-ActsAs page h =
      let (c, q) = operates-true page.role page.history_mode h in record { current = c; holds = q }

  press_submit_review-some :
      (page : DetailPage) (agreed : Bool) (r : Request)
      → (press_submit_review browser agreed page).1 ≡ some r
      → (shows_supervision page ≡ true)
        × (is_pending_review page.detail.item.review_status ≡ true)
        × ((is_reject page.review_choice && blank page.note) ≡ false)
        × (r
            ≡ review_suggestion encode key page.link_id page.review_choice page.note
                page.detail.item.review_version)
  unfolding press_submit_review submit_review
  press_submit_review-some page agreed r e = ground arith

  review-Allowed :
      (page : DetailPage) (agreed : Bool) (r : Request)
      → (press_submit_review browser agreed page).1 ≡ some r
      → Allowed browser page r
  review-Allowed page agreed r e =
      let (shown, waits, noted, same) = press_submit_review-some page agreed r e in
      review (shows_supervision-ActsAs page shown)
        (is_pending_review-true page.detail.item.review_status waits) (λ c. rw c at noted) same

  ai-Allowed :
      (page : DetailPage) (r : Request)
      → (press_ai_retry browser page).1 ≡ some r
      → Allowed browser page r
  unfolding press_ai_retry
  ai-Allowed page r e = retry_ai (ground arith) (ground arith) (ground arith)

  operate-Allowed :
      (page : DetailPage) (o : Operation) (r : Request)
      → ActsAs operations page
      → (operate browser o page).1 ≡ some r
      → Allowed browser page r
  unfolding operate
  operate-Allowed page (executing business agreed) r a e =
      let (c, _, _, _, observed, same) =
        press_execute-some browser page.detail page.operating r business agreed e in
      execute_business a c (λ t. ground arith) same
  operate-Allowed page (executing inventory agreed) r a e =
      let (c, _, _, note, _, same) =
        press_execute-some browser page.detail page.operating r inventory agreed e in
      execute_inventory a c note same
  operate-Allowed page (saving_result agreed) r a e =
      let (p, x, _, _, _, _, note, same) =
        press_result-some browser page.detail page.operating r agreed e in
      save_result a p x note same
  operate-Allowed page (submitting_clearance agreed) r a e =
      let (p, x, _, _, _, note, same) =
        press_clearance-some browser page.detail page.operating r agreed e in
      submit_clearance a p x note same
  operate-Allowed page sending r a e =
      let (c, _, to, text, same) = press_oa_send-some browser page.detail page.operating r e in
      send_oa a c to text same
  operate-Allowed page (resending i) r a e =
      let (n, listed, p, o, same) = press_oa_retry-some browser page.detail page.operating r i e in
      retry_oa a p n listed o same

  clearance-Allowed :
      (page : DetailPage) (d : ClearanceDecision) (r : Request)
      → ActsAs supervisor page
      → (o : Option ClearanceCompletion) → page.detail.clearance_completion ≡ o
      → (review_completion browser o page.detail d page.supervising).1 ≡ some r
      → Allowed browser page r
  unfolding review_completion can_decide
  clearance-Allowed page d r a none q e = cc
  clearance-Allowed page confirmed r a (some c) q e =
      let (s, _, same) =
        review_completion-some browser page.detail page.supervising r confirmed c e in
      review_clearance a confirmed c q s (λ x. cc) same
  clearance-Allowed page returned r a (some c) q e =
      let (s, k, same) =
        review_completion-some browser page.detail page.supervising r returned c e in
      review_clearance a returned c q s (λ x. ground arith) same

  supervise-Allowed :
      (page : DetailPage) (s : Supervision) (r : Request)
      → ActsAs supervisor page
      → (supervise browser s page).1 ≡ some r
      → Allowed browser page r
  unfolding supervise press_review
  supervise-Allowed page (overriding agreed) r a e =
      let (c, why, _, _, same) =
        press_override-some browser page.detail page.supervising r agreed e in
      override a c why same
  supervise-Allowed page (terminating agreed) r a e =
      let (c, why, _, _, same) =
        press_terminate-some browser page.detail page.supervising r agreed e in
      terminate a c why same
  supervise-Allowed page (deciding d) r a e =
      clearance-Allowed page d r a page.detail.clearance_completion refl e

  -- Every request that a step of the page sends is allowed: the session has the role, the page is
  -- not in history mode, the track or review is in the right state, the required texts are not
  -- blank, and the request carries the version that the page shows.
  pub step-Allowed :
      (page : DetailPage) (event : Event) (r : Request)
      → (step browser event page).1 ≡ some r
      → Allowed browser page r
  unfolding step
  step-Allowed page (chose d) r e = cc
  step-Allowed page (wrote t) r e = cc
  step-Allowed page (edited_operations p) r e = cc
  step-Allowed page (edited_supervision p) r e = cc
  step-Allowed page (pressed_review agreed) r e = review-Allowed page agreed r e
  step-Allowed page pressed_ai_retry r e = ai-Allowed page r e
  step-Allowed page (pressed_operation o) r e = elim (Bool-cases (shows_operations page)) [
    | inl h ↦ operate-Allowed page o r (shows_operations-ActsAs page h) (rw h at e)
    | inr h ↦ cc (let g : none ≡ some r = rw h at e in g)
  ]
  step-Allowed page (pressed_supervision s) r e = elim (Bool-cases (shows_supervision page)) [
    | inl h ↦ supervise-Allowed page s r (shows_supervision-ActsAs page h) (rw h at e)
    | inr h ↦ cc (let g : none ≡ some r = rw h at e in g)
  ]
  step-Allowed page (answered c o) r e = cc
