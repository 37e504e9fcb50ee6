-- ===== src/Suggestion/Traces.antt =====
-- Sequences of events on the detail page.
use profit_decision_engine.Prelude.{
  String, List, [], ◌∷◌, ◌++◌, Option, none, some, Bool, true, ◌≡◌, refl, arith, inl, inr,
  Bool-cases, Option-cases, ◌∙◌,
}
use profit_decision_engine.Api.{Request}
use profit_decision_engine.Suggestion.Feedback.{Browser, Failure, Outcome, updated, refused}
use profit_decision_engine.Suggestion.Page.{
  DetailPage, Event, step, answer, requests, press_submit_review, submit_review, sent_by,
  press_ai_retry, shows_operations, shows_supervision, chose, wrote, edited_operations,
  edited_supervision, pressed_review, pressed_ai_retry, pressed_operation, pressed_supervision,
  answered, Command, reviewed, ai_retried, executed, result_saved, clearance_submitted, sent,
  resent, overridden, terminated, decided,
}
use profit_decision_engine.Suggestion.Allowed.{Allowed}
use profit_decision_engine.Suggestion.Commands.{step-Allowed}

-- The texts that the user typed, and the chosen decision is kept beside them.
abbrev pub inputs : DetailPage → List String
inputs page =
    let o = page.operating in
    let s = page.supervising in
    page.note ∷ o.business_note ∷ o.inventory_note ∷ o.result_note ∷ o.period_start ∷ o.period_end
    ∷ o.sales ∷ o.profit ∷ o.stock ∷ o.completed_at ∷ o.clearance_note ∷ o.oa_recipient
    ∷ o.oa_request ∷ s.business_action ∷ s.inventory_action ∷ s.reason ∷ s.return_reason ∷ []

module _ (browser : Browser) where
  -- An error keeps the shown detail, and no answer changes what the user has typed or chosen.
  pub answer-inputs :
      (command : Command) (outcome : Outcome) (page : DetailPage)
      → (inputs (answer browser command outcome page) ≡ inputs page)
        × ((answer browser command outcome page).review_choice ≡ page.review_choice)
        × ((failure : Failure)
            → outcome ≡ refused failure
            → (answer browser command outcome page).detail ≡ page.detail)
  unfolding answer
  answer-inputs reviewed (updated d) page = (refl, refl, λ f e. cc)
  answer-inputs reviewed (refused g) page = (refl, refl, λ f e. refl)
  answer-inputs ai_retried (updated d) page = (refl, refl, λ f e. cc)
  answer-inputs ai_retried (refused g) page = (refl, refl, λ f e. refl)
  answer-inputs executed (updated d) page = (refl, refl, λ f e. cc)
  answer-inputs executed (refused g) page = (refl, refl, λ f e. refl)
  answer-inputs result_saved (updated d) page = (refl, refl, λ f e. cc)
  answer-inputs result_saved (refused g) page = (refl, refl, λ f e. refl)
  answer-inputs clearance_submitted (updated d) page = (refl, refl, λ f e. cc)
  answer-inputs clearance_submitted (refused g) page = (refl, refl, λ f e. refl)
  answer-inputs sent (updated d) page = (refl, refl, λ f e. cc)
  answer-inputs sent (refused g) page = (refl, refl, λ f e. refl)
  answer-inputs resent (updated d) page = (refl, refl, λ f e. cc)
  answer-inputs resent (refused g) page = (refl, refl, λ f e. refl)
  answer-inputs overridden (updated d) page = (refl, refl, λ f e. cc)
  answer-inputs overridden (refused g) page = (refl, refl, λ f e. refl)
  answer-inputs terminated (updated d) page = (refl, refl, λ f e. cc)
  answer-inputs terminated (refused g) page = (refl, refl, λ f e. refl)
  answer-inputs decided (updated d) page = (refl, refl, λ f e. cc)
  answer-inputs decided (refused g) page = (refl, refl, λ f e. refl)

  press_submit_review-mode :
      (agreed : Bool) (page : DetailPage)
      → (press_submit_review browser agreed page).0.history_mode ≡ page.history_mode
  unfolding press_submit_review submit_review
  press_submit_review-mode agreed page = ground arith

  press_ai_retry-mode :
      (page : DetailPage) → (press_ai_retry browser page).0.history_mode ≡ page.history_mode
  unfolding press_ai_retry
  press_ai_retry-mode page = ground arith

  answer-mode :
      (command : Command) (outcome : Outcome) (page : DetailPage)
      → (answer browser command outcome page).history_mode ≡ page.history_mode
  unfolding answer
  answer-mode reviewed outcome page = refl
  answer-mode ai_retried outcome page = refl
  answer-mode executed outcome page = refl
  answer-mode result_saved outcome page = refl
  answer-mode clearance_submitted outcome page = refl
  answer-mode sent outcome page = refl
  answer-mode resent outcome page = refl
  answer-mode overridden outcome page = refl
  answer-mode terminated outcome page = refl
  answer-mode decided outcome page = refl

  step-mode :
      (event : Event) (page : DetailPage)
      → (step browser event page).0.history_mode ≡ page.history_mode
  unfolding step
  step-mode (chose d) page = refl
  step-mode (wrote t) page = refl
  step-mode (edited_operations p) page = refl
  step-mode (edited_supervision p) page = refl
  step-mode (pressed_review agreed) page = press_submit_review-mode agreed page
  step-mode pressed_ai_retry page = press_ai_retry-mode page
  step-mode (pressed_operation o) page = elim (Bool-cases (shows_operations page)) [
    | inl h ↦ rw h refl
    | inr h ↦ rw h refl
  ]
  step-mode (pressed_supervision s) page = elim (Bool-cases (shows_supervision page)) [
    | inl h ↦ rw h refl
    | inr h ↦ rw h refl
  ]
  step-mode (answered c o) page = answer-mode c o page

  -- In history mode, nothing that is allowed could be sent.
  history-not-Allowed :
      (page : DetailPage) (r : Request) → page.history_mode ≡ true → ¬ Allowed browser page r
  history-not-Allowed page r h (Allowed.review a _ _ _) = cc (h, a.current)
  history-not-Allowed page r h (Allowed.override a _ _ _) = cc (h, a.current)
  history-not-Allowed page r h (Allowed.terminate a _ _ _) = cc (h, a.current)
  history-not-Allowed page r h (Allowed.review_clearance a _ _ _ _ _ _) = cc (h, a.current)
  history-not-Allowed page r h (Allowed.execute_business a _ _ _) = cc (h, a.current)
  history-not-Allowed page r h (Allowed.execute_inventory a _ _ _) = cc (h, a.current)
  history-not-Allowed page r h (Allowed.save_result a _ _ _ _) = cc (h, a.current)
  history-not-Allowed page r h (Allowed.submit_clearance a _ _ _ _) = cc (h, a.current)
  history-not-Allowed page r h (Allowed.send_oa a _ _ _ _) = cc (h, a.current)
  history-not-Allowed page r h (Allowed.retry_oa a _ _ _ _ _) = cc (h, a.current)
  history-not-Allowed page r h (Allowed.retry_ai c _ _) = cc (h, c)

  step-history :
      (event : Event) (page : DetailPage)
      → page.history_mode ≡ true
      → (step browser event page).1 ≡ none
  step-history event page h = elim (Option-cases (step browser event page).1) [
    | inl e ↦ e
    | inr (r, e) ↦ absurd (history-not-Allowed page r h (step-Allowed browser page event r e))
  ]

  sent_by-none :
      (p : DetailPage × Option Request) (rest : List Request)
      → p.1 ≡ none
      → sent_by browser p rest ≡ rest
  sent_by-none (q, none) rest e = refl
  sent_by-none (q, some r) rest e = cc

  -- A page in history mode sends no request, whatever is typed, pressed or answered.
  pub requests-history_mode :
      (page : DetailPage) (events : List Event)
      → page.history_mode ≡ true
      → requests browser page events ≡ []
  unfolding requests
  requests-history_mode page [] h = refl
  requests-history_mode page (event ∷ rest) h =
      sent_by-none (step browser event page) _ (step-history event page h)
      ∙ requests-history_mode (step browser event page).0 rest (step-mode event page ∙ h)

  -- The page after a sequence of events.
  abbrev pub page_after : DetailPage → List Event → DetailPage
  page_after page [] = page
  page_after page (event ∷ events) = page_after (step browser event page).0 events

  -- The request is sent by one of the events, on the page that the events before it leave, where it
  -- is allowed.
  pub record SentFrom (page : DetailPage) (events : List Event) (r : Request) : Type 0 where
    pub before : List Event
    pub event : Event
    pub rest : List Event
    pub split : events ≡ before ++ (event ∷ rest)
    pub sent : (step browser event (page_after page before)).1 ≡ some r
    pub allowed : Allowed browser (page_after page before) r
