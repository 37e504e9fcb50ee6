-- ===== src/Supplement/Detail/Commands.antt =====
-- Which requests the decision page may send: the rules of the roles, written apart from the handlers.
use profit_decision_engine.Prelude.{
  String, List, [], ◌∷◌, Option, none, some, true, false, ◌&&◌, not, ◌==◌, ◌≡◌, ◌⊎◌, refl, arith,
  inl, inr, Bool-cases, eq_iff, elem, sym,
}
use profit_decision_engine.Supplement.Data.{Role, supervisor, Decision, ActionItem}
use profit_decision_engine.Supplement.Detail.Forms.{
  is_pending, review_refreshed, action_refreshed, DetailPage, Post, ReviewMode, approve, reject,
  ActionValues, Event, opened_review, cancelled_review, submitted_review, opened_lane,
  cancelled_action, submitted_action, review_answered, action_answered, refetched, step, opened,
  after, review_post, action_post, offers_action, offers_review, filled, submit_review,
  submit_action, same_role, review_passes, action_passes, form_values, asks_result,
}
use profit_decision_engine.Supplement.Detail.Seen.{Listed, IsSeen, seen_after, opened-IsSeen}
use profit_decision_engine.Supplement.Detail.Sound.{
  IsSound, same_role-true, after-IsSound, opened-IsSound,
}

-- What the page may send, and when: a review is the supervisor's, with a reason if it rejects; a
-- lane is its owner's while it is pending or executed, with a note, and with a result if and only if
-- it is executed. The versions are those of the shown decision and of the lane.
pub data Allowed (seen : List Decision) (page : DetailPage) (event : Event) (post : Post)
    : Type 0 where
  review :
      (mode : ReviewMode)
      → (note : Option String) → event ≡ submitted_review note
      → page.review_mode ≡ some mode
      → page.role ≡ some supervisor
      → is_pending page.review_run ≡ false
      → (mode ≡ reject → filled note ≡ true)
      → post ≡ review_post page.decision_id page.decision mode note
      → Allowed seen page event post
  complete :
      (lane : ActionItem)
      → (given values : ActionValues) → event ≡ submitted_action given
      → page.action ≡ some lane
      → Listed seen lane
      → values.note ≡ given.note
      → page.role ≡ some lane.owner_role
      → is_pending page.action_run ≡ false
      → (lane.execution_state ≡ "pending") ⊎ (lane.execution_state ≡ "executed")
      → filled (some values.note) ≡ true
      → (lane.execution_state ≡ "executed"
          → (values.result ≡ given.result) × (filled values.result ≡ true))
      → (lane.execution_state ≡ "pending" → values.result ≡ none)
      → post ≡ action_post lane values
      → Allowed seen page event post

passes-reject :
    (mode : ReviewMode) (text : Option String)
    → review_passes mode text ≡ true
    → mode ≡ reject
    → filled text ≡ true
unfolding review_passes
passes-reject approve text h e = cc
passes-reject reject text h e = h

submit_review-Allowed :
    (seen : List Decision) (mode : Option ReviewMode) (text : Option String) (page : DetailPage)
    (post : Post)
    → ((m : ReviewMode) → mode ≡ some m → page.role ≡ some supervisor)
    → page.review_mode ≡ mode
    → (submit_review mode text page).1 ≡ some post
    → Allowed seen page (submitted_review text) post
unfolding submit_review
submit_review-Allowed seen none text page post r k h = cc
submit_review-Allowed seen (some mode) text page post r k h =
    elim (Bool-cases (review_passes mode text && not (is_pending page.review_run))) [
      | inl e ↦
          let sent : some (review_post page.decision_id page.decision mode text) ≡ some post =
            rw e at h in
          let both : (review_passes mode text ≡ true) × (is_pending page.review_run ≡ false) =
            ground arith in
          Allowed.review mode text refl k (r mode refl) both.1 (passes-reject mode text both.0)
            (cc sent)
      | inr e ↦ cc (let g : none ≡ some post = rw e at h in g)
    ]

open_state :
    (state : String)
    → elem state ("pending" ∷ "executed" ∷ []) ≡ true
    → (state ≡ "pending") ⊎ (state ≡ "executed")
open_state state h = elim (Bool-cases ("pending" == state)) [
  | inl e ↦ inl (sym ((eq_iff "pending" state).0 e))
  | inr e ↦ elim (Bool-cases ("executed" == state)) [
    | inl f ↦ inr (sym ((eq_iff "executed" state).0 f))
    | inr f ↦ cc (let g : false ≡ true = rw (e, f) at h in g)
  ]
]

offers_action-owner :
    (role : Option Role) (lane : ActionItem)
    → offers_action role lane ≡ true
    → (role ≡ some lane.owner_role)
      × ((lane.execution_state ≡ "pending") ⊎ (lane.execution_state ≡ "executed"))
unfolding offers_action
offers_action-owner role lane h =
    let both : (same_role lane.owner_role role ≡ true)
        × (elem lane.execution_state ("pending" ∷ "executed" ∷ []) ≡ true) =
      ground arith in
    (same_role-true lane.owner_role role both.0, open_state lane.execution_state both.1)

-- The result stands in the values exactly if the form asks for it.
passes-result :
    (lane : ActionItem) (values : ActionValues)
    → action_passes lane values ≡ true
    → (filled (some (form_values lane values).note) ≡ true)
      × (lane.execution_state ≡ "executed"
          → ((form_values lane values).result ≡ values.result)
            × (filled (form_values lane values).result ≡ true))
      × (lane.execution_state ≡ "pending" → (form_values lane values).result ≡ none)
unfolding action_passes form_values
passes-result lane values h = (
  ground arith,
  (λ e. let t : asks_result lane ≡ true = rw e refl in (rw t refl, ground (arith, t))),
  (λ e. let t : asks_result lane ≡ false = rw e refl in rw t refl),
)

submit_action-Allowed :
    (seen : List Decision) (lane : Option ActionItem) (values : ActionValues) (page : DetailPage)
    (post : Post)
    → ((l : ActionItem) → lane ≡ some l → Listed seen l)
    → ((l : ActionItem) → lane ≡ some l → offers_action page.role l ≡ true)
    → page.action ≡ lane
    → (submit_action lane values page).1 ≡ some post
    → Allowed seen page (submitted_action values) post
unfolding submit_action
submit_action-Allowed seen none values page post q r k h = cc
submit_action-Allowed seen (some lane) values page post q r k h =
    elim (Bool-cases (action_passes lane values && not (is_pending page.action_run))) [
      | inl e ↦
          let sent : some (action_post lane (form_values lane values)) ≡ some post = rw e at h in
          let both : (action_passes lane values ≡ true) × (is_pending page.action_run ≡ false) =
            ground arith in
          let owned = offers_action-owner page.role lane (r lane refl) in
          let passed = passes-result lane values both.0 in
          Allowed.complete lane values (form_values lane values) refl k (q lane refl) refl owned.0
            both.1 owned.1 passed.0 passed.1 passed.2 (cc sent)
      | inr e ↦ cc (let g : none ≡ some post = rw e at h in g)
    ]

-- On a sound page, every event sends only what is allowed.
step-Allowed :
    (event : Event) (seen : List Decision) (page : DetailPage) (post : Post)
    → IsSeen seen page
    → IsSound page
    → (step event page).1 ≡ some post
    → Allowed seen page event post
unfolding step
step-Allowed (opened_review mode) seen page post w v h =
    elim (Bool-cases (offers_review page.role page.decision)) [
      | inl e ↦ cc (let g : none ≡ some post = rw e at h in g)
      | inr e ↦ cc (let g : none ≡ some post = rw e at h in g)
    ]
step-Allowed cancelled_review seen page post w v h = cc
step-Allowed (submitted_review text) seen page post w v h =
    submit_review-Allowed seen page.review_mode text page post v.reviewer refl h
step-Allowed (opened_lane index) seen page post w v h = cc
step-Allowed cancelled_action seen page post w v h = cc
step-Allowed (submitted_action values) seen page post w v h =
    submit_action-Allowed seen page.action values page post w.lanes v.offered refl h
step-Allowed (review_answered outcome) seen page post w v h = cc
step-Allowed (action_answered outcome) seen page post w v h = cc
step-Allowed review_refreshed seen page post w v h = cc
step-Allowed action_refreshed seen page post w v h = cc
step-Allowed (refetched decision) seen page post w v h = cc

-- Whatever happened on the page since it was opened, the next event sends only what is allowed at
-- that moment. A review is the supervisor's, none is running, it is sent by the open form, in the
-- mode of that form and with the submitted note, not blank if it rejects, and with the version of
-- the decision that is shown. An action is one of the session's own role, none is running, its lane
-- is the one whose form is open, belongs to a decision that the page has loaded, and was pending or
-- executed; the submitted note is not blank, and the submitted result goes with it, not blank, if
-- the lane is executed, none if it is pending.
pub after-step-Allowed :
    (id : String) (role : Option Role) (decision : Decision) (events : List Event) (event : Event)
    (post : Post)
    → (step event (after events (opened id role decision))).1 ≡ some post
    → Allowed
        (seen_after events (decision ∷ []))
        (after events (opened id role decision))
        event
        post
after-step-Allowed id role decision events event post h =
    step-Allowed event (seen_after events (decision ∷ [])) (after events (opened id role decision))
      post (opened-IsSeen id role decision events)
      (after-IsSound events (opened id role decision) (opened-IsSound id role decision)) h
