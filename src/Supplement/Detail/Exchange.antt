-- ===== src/Supplement/Detail/Exchange.antt =====
-- The page refines the protocol.
use profit_decision_engine.Prelude.{
  String, List, [], ◌∷◌, Option, none, some, false, ◌&&◌, not, ◌≡◌, refl, arith, inl, inr,
  Bool-cases, get_elem?, subst,
}
use profit_decision_engine.Supplement.Data.{ActionItem}
use profit_decision_engine.Supplement.Detail.Forms.{
  Run, idle, sent, refreshing, is_pending, settle, review_refreshed, action_refreshed, DetailPage,
  ReviewMode, Event, opened_review, cancelled_review, submitted_review, opened_lane,
  cancelled_action, submitted_action, review_answered, action_answered, refetched, Outcome,
  succeeded, failed, ActionValues, step, after, review_post, action_post, open_lane, submit_review,
  submit_action, answer_review, answer_action, review_passes, action_passes, form_values,
  offers_action, offers_review,
}
use profit_decision_engine.Supplement.Detail.Protocol.{
  answered_run, is_success, Label, Busy, Exchange, busy, label_of, observed, IsDue, Answerable,
}

-- From here on, the server sees a run of the protocol.
abbrev Continues : String → Busy → DetailPage → List Label → Type 0
Continues id end page labels = Exchange id end (busy page) labels

is_pending-idle : (r : Run) → is_pending r ≡ false → r ≡ idle
is_pending-idle idle h = refl
is_pending-idle sent h = cc
is_pending-idle refreshing h = cc

submit_review-Exchange :
    (end : Busy) (mode : Option ReviewMode) (text : Option String) (page : DetailPage)
    (labels : List Label)
    → Continues page.decision_id end (submit_review mode text page).0 labels
    → Continues page.decision_id end page
        (label_of (submitted_review text) (submit_review mode text page).1 labels)
unfolding submit_review review_post
submit_review-Exchange end none text page labels x = x
submit_review-Exchange end (some mode) text page labels x =
    elim (Bool-cases (review_passes mode text && not (is_pending page.review_run))) [
      | inl e ↦
          let free : page.review_run ≡ idle = is_pending-idle page.review_run (ground arith) in
          rw e (
            Exchange.send_review (busy page) (review_post page.decision_id page.decision mode text)
              labels free refl (rw e at x))
      | inr e ↦ rw e (rw e at x)
    ]

submit_action-Exchange :
    (end : Busy) (lane : Option ActionItem) (values : ActionValues) (page : DetailPage)
    (labels : List Label)
    → Continues page.decision_id end (submit_action lane values page).0 labels
    → Continues page.decision_id end page
        (label_of (submitted_action values) (submit_action lane values page).1 labels)
unfolding submit_action
submit_action-Exchange end none values page labels x = x
submit_action-Exchange end (some lane) values page labels x =
    elim (Bool-cases (action_passes lane values && not (is_pending page.action_run))) [
      | inl e ↦
          let free : page.action_run ≡ idle = is_pending-idle page.action_run (ground arith) in
          rw e (
            Exchange.send_action (busy page) (action_post lane (form_values lane values)) labels
              free (rw e at x))
      | inr e ↦ rw e (rw e at x)
    ]

open_lane-busy :
    (lane : Option ActionItem) (page : DetailPage) → busy (open_lane lane page) ≡ busy page
unfolding open_lane
open_lane-busy none page = refl
open_lane-busy (some lane) page = elim (Bool-cases (offers_action page.role lane)) [
  | inl e ↦ rw e refl
  | inr e ↦ rw e refl
]

review-busy :
    (mode : ReviewMode) (page : DetailPage) → busy (step (opened_review mode) page).0 ≡ busy page
unfolding step
review-busy mode page = elim (Bool-cases (offers_review page.role page.decision)) [
  | inl e ↦ rw e refl
  | inr e ↦ rw e refl
]

review_request-none :
    (mode : ReviewMode) (page : DetailPage) → (step (opened_review mode) page).1 ≡ none
unfolding step
review_request-none mode page = ground arith

answer_review-busy :
    (outcome : Outcome) (page : DetailPage)
    → busy (answer_review outcome page)
      ≡ record { review = answered_run (is_success outcome); action = page.action_run }
unfolding answer_review
answer_review-busy succeeded page = refl
answer_review-busy (failed caught) page = refl

answer_action-busy :
    (outcome : Outcome) (page : DetailPage)
    → busy (answer_action outcome page)
      ≡ record { review = page.review_run; action = answered_run (is_success outcome) }
unfolding answer_action
answer_action-busy succeeded page = refl
answer_action-busy (failed caught) page = refl

-- One event, before a run that the server sees from the page after it.
step-Exchange :
    (end : Busy) (event : Event) (page : DetailPage) (labels : List Label)
    → IsDue event page
    → Continues page.decision_id end (step event page).0 labels
    → Continues page.decision_id end page (label_of event (step event page).1 labels)
unfolding step
step-Exchange end (opened_review mode) page labels a x =
    subst (λ b. Exchange page.decision_id end b labels) (review-busy mode page) x
step-Exchange end cancelled_review page labels a x = x
step-Exchange end (submitted_review text) page labels a x =
    submit_review-Exchange end page.review_mode text page labels x
step-Exchange end (opened_lane index) page labels a x =
    subst (λ b. Exchange page.decision_id end b labels)
      (open_lane-busy (get_elem? page.decision.actions index) page) x
step-Exchange end cancelled_action page labels a x = x
step-Exchange end (submitted_action values) page labels a x =
    submit_action-Exchange end page.action values page labels x
step-Exchange end (review_answered outcome) page labels a x =
    Exchange.get_review (busy page) (is_success outcome) labels a
      (subst (λ b. Exchange page.decision_id end b labels) (answer_review-busy outcome page) x)
step-Exchange end (action_answered outcome) page labels a x =
    Exchange.get_action (busy page) (is_success outcome) labels a
      (subst (λ b. Exchange page.decision_id end b labels) (answer_action-busy outcome page) x)
step-Exchange end review_refreshed page labels a x = Exchange.refresh_review (busy page) labels a (
    subst
      (λ r.
        Exchange page.decision_id end (record { review = settle r; action = page.action_run })
          labels)
      a x)
step-Exchange end action_refreshed page labels a x = Exchange.refresh_action (busy page) labels a (
    subst
      (λ r.
        Exchange page.decision_id end (record { review = page.review_run; action = settle r })
          labels)
      a x)
step-Exchange end (refetched decision) page labels a x = x

open_lane-decision_id :
    (lane : Option ActionItem) (page : DetailPage)
    → (open_lane lane page).decision_id ≡ page.decision_id
unfolding open_lane
open_lane-decision_id none page = refl
open_lane-decision_id (some lane) page = ground arith

submit_review-decision_id :
    (mode : Option ReviewMode) (text : Option String) (page : DetailPage)
    → (submit_review mode text page).0.decision_id ≡ page.decision_id
unfolding submit_review
submit_review-decision_id none text page = refl
submit_review-decision_id (some mode) text page = ground arith

submit_action-decision_id :
    (lane : Option ActionItem) (values : ActionValues) (page : DetailPage)
    → (submit_action lane values page).0.decision_id ≡ page.decision_id
unfolding submit_action
submit_action-decision_id none values page = refl
submit_action-decision_id (some lane) values page = ground arith

step-decision_id :
    (event : Event) (page : DetailPage) → (step event page).0.decision_id ≡ page.decision_id
unfolding step answer_review answer_action
step-decision_id (opened_review mode) page = ground arith
step-decision_id cancelled_review page = refl
step-decision_id (submitted_review text) page = submit_review-decision_id page.review_mode text page
step-decision_id (opened_lane index) page =
    open_lane-decision_id (get_elem? page.decision.actions index) page
step-decision_id cancelled_action page = refl
step-decision_id (submitted_action values) page = submit_action-decision_id page.action values page
step-decision_id (review_answered succeeded) page = refl
step-decision_id (review_answered (failed caught)) page = refl
step-decision_id (action_answered succeeded) page = refl
step-decision_id (action_answered (failed caught)) page = refl
step-decision_id review_refreshed page = refl
step-decision_id action_refreshed page = refl
step-decision_id (refetched decision) page = refl

-- What the server sees of the page is a run of the protocol, from the commands that run at its start
-- to those that run at its end, provided that only sent commands are answered and only running
-- refreshes end: each of the two commands is sent only when its last one was refused, or was
-- answered and refreshed, and every review goes to the address of the page's decision.
pub observed-Exchange :
    (events : List Event) (page : DetailPage)
    → Answerable page events
    → Exchange page.decision_id (busy (after events page)) (busy page) (observed page events)
unfolding after
observed-Exchange [] page a = Exchange.done (busy page) refl
observed-Exchange (event ∷ events) page a =
    step-Exchange (busy (after (event ∷ events) page)) event page
      (observed (step event page).0 events) a.0
      (subst
        (λ id.
          Exchange id (busy (after events (step event page).0)) (busy (step event page).0)
            (observed (step event page).0 events))
        (step-decision_id event page) (observed-Exchange events (step event page).0 a.1))
