-- ===== src/Supplement/Detail/Sound.antt =====
-- What stays true of the decision page: an open lane is one that the role may act on, and an open
-- review is the supervisor's.
use profit_decision_engine.Prelude.{
  String, List, [], ◌∷◌, Option, none, some, true, ◌&&◌, not, ◌≡◌, refl, inl, inr, get_elem?,
  Bool-cases, subst,
}
use profit_decision_engine.Supplement.Data.{
  Role, operator, supervisor, procurement, Decision, ActionItem,
}
use profit_decision_engine.Supplement.Detail.Forms.{
  is_pending, review_refreshed, action_refreshed, DetailPage, ReviewMode, ActionValues, Event,
  opened_review, cancelled_review, submitted_review, opened_lane, cancelled_action,
  submitted_action, review_answered, action_answered, refetched, Outcome, succeeded, failed, step,
  opened, after, offers_action, offers_review, open_lane, submit_review, submit_action,
  answer_review, answer_action, same_role, review_passes, action_passes,
}

-- What holds of the page after every event.
pub record IsSound (page : DetailPage) : Type 0 where
  pub offered : (lane : ActionItem) → page.action ≡ some lane → offers_action page.role lane ≡ true
  pub reviewer : (mode : ReviewMode) → page.review_mode ≡ some mode → page.role ≡ some supervisor

pub same_role-true : (a : Role) (role : Option Role) → same_role a role ≡ true → role ≡ some a
same_role-true operator (some operator) h = refl
same_role-true supervisor (some supervisor) h = refl
same_role-true procurement (some procurement) h = refl
same_role-true operator none h = cc
same_role-true operator (some supervisor) h = cc
same_role-true operator (some procurement) h = cc
same_role-true supervisor none h = cc
same_role-true supervisor (some operator) h = cc
same_role-true supervisor (some procurement) h = cc
same_role-true procurement none h = cc
same_role-true procurement (some operator) h = cc
same_role-true procurement (some supervisor) h = cc

some-injective : (a b : ActionItem) → some a ≡ some b → a ≡ b
some-injective a b h = cc

offers_review-role :
    (role : Option Role) (decision : Decision)
    → offers_review role decision ≡ true
    → role ≡ some supervisor
unfolding offers_review
offers_review-role role decision h = elim (Bool-cases (same_role supervisor role)) [
  | inl e ↦ same_role-true supervisor role e
  | inr e ↦ cc (rw e at h)
]

open_lane-IsSound :
    (lane : Option ActionItem) (page : DetailPage) → IsSound page → IsSound (open_lane lane page)
unfolding open_lane
open_lane-IsSound none page v = v
open_lane-IsSound (some lane) page v = elim (Bool-cases (offers_action page.role lane)) [
  | inl e ↦ rw e (record {
    offered = λ l h. subst (λ x. offers_action page.role x ≡ true) (some-injective lane l h) e;
    reviewer = v.reviewer;
  })
  | inr e ↦ rw e v
]

submit_review-IsSound :
    (mode : Option ReviewMode) (text : Option String) (page : DetailPage)
    → IsSound page
    → IsSound (submit_review mode text page).0
unfolding submit_review
submit_review-IsSound none text page v = v
submit_review-IsSound (some mode) text page v =
    elim (Bool-cases (review_passes mode text && not (is_pending page.review_run))) [
      | inl e ↦ rw e (record { offered = v.offered; reviewer = v.reviewer })
      | inr e ↦ rw e v
    ]

submit_action-IsSound :
    (lane : Option ActionItem) (values : ActionValues) (page : DetailPage)
    → IsSound page
    → IsSound (submit_action lane values page).0
unfolding submit_action
submit_action-IsSound none values page v = v
submit_action-IsSound (some lane) values page v =
    elim (Bool-cases (action_passes lane values && not (is_pending page.action_run))) [
      | inl e ↦ rw e (record { offered = v.offered; reviewer = v.reviewer })
      | inr e ↦ rw e v
    ]

answer_review-IsSound :
    (outcome : Outcome) (page : DetailPage) → IsSound page → IsSound (answer_review outcome page)
unfolding answer_review
answer_review-IsSound succeeded page v = record { offered = v.offered; reviewer = λ m h. cc }
answer_review-IsSound (failed caught) page v = record { offered = v.offered; reviewer = v.reviewer }

answer_action-IsSound :
    (outcome : Outcome) (page : DetailPage) → IsSound page → IsSound (answer_action outcome page)
unfolding answer_action
answer_action-IsSound succeeded page v = record { offered = λ l h. cc; reviewer = v.reviewer }
answer_action-IsSound (failed caught) page v = record { offered = v.offered; reviewer = v.reviewer }

step-IsSound : (event : Event) (page : DetailPage) → IsSound page → IsSound (step event page).0
unfolding step
step-IsSound (opened_review mode) page v =
    elim (Bool-cases (offers_review page.role page.decision)) [
      | inl e ↦ rw e (record {
        offered = v.offered;
        reviewer = λ m h. offers_review-role page.role page.decision e;
      })
      | inr e ↦ rw e v
    ]
step-IsSound cancelled_review page v = record { offered = v.offered; reviewer = λ m h. cc }
step-IsSound (submitted_review text) page v = submit_review-IsSound page.review_mode text page v
step-IsSound (opened_lane index) page v =
    open_lane-IsSound (get_elem? page.decision.actions index) page v
step-IsSound cancelled_action page v = record { offered = λ l h. cc; reviewer = v.reviewer }
step-IsSound (submitted_action values) page v = submit_action-IsSound page.action values page v
step-IsSound (review_answered outcome) page v = answer_review-IsSound outcome page v
step-IsSound (action_answered outcome) page v = answer_action-IsSound outcome page v
step-IsSound review_refreshed page v = record { offered = v.offered; reviewer = v.reviewer }
step-IsSound action_refreshed page v = record { offered = v.offered; reviewer = v.reviewer }
step-IsSound (refetched decision) page v = record { offered = v.offered; reviewer = v.reviewer }

pub after-IsSound :
    (events : List Event) (page : DetailPage) → IsSound page → IsSound (after events page)
unfolding after
after-IsSound [] page v = v
after-IsSound (event ∷ events) page v =
    after-IsSound events (step event page).0 (step-IsSound event page v)

pub opened-IsSound :
    (id : String) (role : Option Role) (decision : Decision) → IsSound (opened id role decision)
unfolding opened
opened-IsSound id role decision = record { offered = λ l h. cc; reviewer = λ m h. cc }
