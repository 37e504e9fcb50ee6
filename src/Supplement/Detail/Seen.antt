-- ===== src/Supplement/Detail/Seen.antt =====
-- Where the open lane of the decision page comes from: a decision that the page has shown.
use mathlib.Core.List.{Memᴰ}
use profit_decision_engine.Prelude.{
  String, List, [], ◌∷◌, Option, none, some, ◌&&◌, not, ◌≡◌, refl, inl, inr, get_elem?,
  Memᴰ-get_elem?, Bool-cases,
}
use profit_decision_engine.Supplement.Data.{Role, Decision, ActionItem}
use profit_decision_engine.Supplement.Detail.Forms.{
  is_pending, review_refreshed, action_refreshed, DetailPage, ReviewMode, ActionValues, Event,
  opened_review, cancelled_review, submitted_review, opened_lane, cancelled_action,
  submitted_action, review_answered, action_answered, refetched, Outcome, succeeded, failed, step,
  opened, after, offers_action, offers_review, open_lane, submit_review, submit_action,
  answer_review, answer_action, review_passes, action_passes,
}

-- The decisions that were loaded: the first, and what the refetches brought.
abbrev pub seen_with : Event → List Decision → List Decision
seen_with (refetched decision) seen = decision ∷ seen
seen_with event seen = seen

abbrev pub seen_after : List Event → List Decision → List Decision
seen_after [] seen = seen
seen_after (event ∷ events) seen = seen_after events (seen_with event seen)

-- A lane of one of the decisions
pub record Listed (seen : List Decision) (lane : ActionItem) : Type 0 where
  pub decision : Decision
  pub loaded : Memᴰ decision seen
  pub listed : Memᴰ lane decision.actions

pub record IsSeen (seen : List Decision) (page : DetailPage) : Type 0 where
  pub current : Memᴰ page.decision seen
  pub lanes : (lane : ActionItem) → page.action ≡ some lane → Listed seen lane

open_lane-IsSeen :
    (seen : List Decision) (lane : Option ActionItem) (page : DetailPage)
    → ((l : ActionItem) → lane ≡ some l → Memᴰ l page.decision.actions)
    → IsSeen seen page
    → IsSeen seen (open_lane lane page)
unfolding open_lane
open_lane-IsSeen seen none page m v = v
open_lane-IsSeen seen (some lane) page m v = elim (Bool-cases (offers_action page.role lane)) [
  | inl e ↦ rw e (record {
    current = v.current;
    lanes = λ l h. record { decision = page.decision; loaded = v.current; listed = m l h };
  })
  | inr e ↦ rw e v
]

submit_review-IsSeen :
    (seen : List Decision) (mode : Option ReviewMode) (text : Option String) (page : DetailPage)
    → IsSeen seen page
    → IsSeen seen (submit_review mode text page).0
unfolding submit_review
submit_review-IsSeen seen none text page v = v
submit_review-IsSeen seen (some mode) text page v =
    elim (Bool-cases (review_passes mode text && not (is_pending page.review_run))) [
      | inl e ↦ rw e (record { current = v.current; lanes = v.lanes })
      | inr e ↦ rw e v
    ]

submit_action-IsSeen :
    (seen : List Decision) (lane : Option ActionItem) (values : ActionValues) (page : DetailPage)
    → IsSeen seen page
    → IsSeen seen (submit_action lane values page).0
unfolding submit_action
submit_action-IsSeen seen none values page v = v
submit_action-IsSeen seen (some lane) values page v =
    elim (Bool-cases (action_passes lane values && not (is_pending page.action_run))) [
      | inl e ↦ rw e (record { current = v.current; lanes = v.lanes })
      | inr e ↦ rw e v
    ]

answer-IsSeen :
    (seen : List Decision) (outcome : Outcome) (page : DetailPage)
    → IsSeen seen page
    → IsSeen seen (answer_review outcome page) × IsSeen seen (answer_action outcome page)
unfolding answer_review answer_action
answer-IsSeen seen succeeded page v = (
  record { current = v.current; lanes = v.lanes },
  record { current = v.current; lanes = λ l h. cc },
)
answer-IsSeen seen (failed caught) page v = (
  record { current = v.current; lanes = v.lanes },
  record { current = v.current; lanes = v.lanes },
)

step-IsSeen :
    (event : Event) (seen : List Decision) (page : DetailPage)
    → IsSeen seen page
    → IsSeen (seen_with event seen) (step event page).0
unfolding step
step-IsSeen (opened_review mode) seen page v =
    elim (Bool-cases (offers_review page.role page.decision)) [
      | inl e ↦ rw e (record { current = v.current; lanes = v.lanes })
      | inr e ↦ rw e v
    ]
step-IsSeen cancelled_review seen page v = record { current = v.current; lanes = v.lanes }
step-IsSeen (submitted_review text) seen page v =
    submit_review-IsSeen seen page.review_mode text page v
step-IsSeen (opened_lane index) seen page v =
    open_lane-IsSeen seen (get_elem? page.decision.actions index) page
      (λ l. Memᴰ-get_elem? page.decision.actions index l) v
step-IsSeen cancelled_action seen page v = record { current = v.current; lanes = λ l h. cc }
step-IsSeen (submitted_action values) seen page v =
    submit_action-IsSeen seen page.action values page v
step-IsSeen (review_answered outcome) seen page v = (answer-IsSeen seen outcome page v).0
step-IsSeen (action_answered outcome) seen page v = (answer-IsSeen seen outcome page v).1
step-IsSeen review_refreshed seen page v = record { current = v.current; lanes = v.lanes }
step-IsSeen action_refreshed seen page v = record { current = v.current; lanes = v.lanes }
step-IsSeen (refetched decision) seen page v = record {
  current = Memᴰ.head refl;
  lanes = λ l h.
      let known = v.lanes l h in
      record { decision = known.decision; loaded = Memᴰ.tail known.loaded; listed = known.listed };
}

after-IsSeen :
    (events : List Event) (seen : List Decision) (page : DetailPage)
    → IsSeen seen page
    → IsSeen (seen_after events seen) (after events page)
unfolding after
after-IsSeen [] seen page v = v
after-IsSeen (event ∷ events) seen page v =
    after-IsSeen events (seen_with event seen) (step event page).0 (step-IsSeen event seen page v)

pub opened-IsSeen :
    (id : String) (role : Option Role) (decision : Decision) (events : List Event)
    → IsSeen (seen_after events (decision ∷ [])) (after events (opened id role decision))
unfolding opened
opened-IsSeen id role decision events =
    after-IsSeen events (decision ∷ []) (opened id role decision)
      (record { current = Memᴰ.head refl; lanes = λ l h. cc })
