-- ===== src/Supplement/Detail/Answers.antt =====
-- How the mutations of DecisionDetailPage.tsx end, by what `api` of api.ts makes of the response.
use profit_decision_engine.Prelude.{
  String, Option, none, some, ◌≡◌, refl, or_else, if◌then◌else◌, Bool-cases, inl, inr,
}
use profit_decision_engine.Supplement.Client.{
  ApiResponse, Result, returned, thrown, read_response, body_of, detail_of, text_field,
}
use profit_decision_engine.Supplement.Detail.Forms.{
  Run, idle, refreshing, review_refreshed, action_refreshed, DetailPage, Outcome, succeeded, failed,
  api_error, other_error, step, review_answered, action_answered, answer_review, answer_action,
}

-- The server responds, or is not reached.
pub data Transport : Type 0 where
  response : ApiResponse → Transport
  unreachable : Transport

-- What `useMutation` is told: a value that `api` returns is a success, what it throws an error.
abbrev pub outcome_of : Result → Outcome
outcome_of (returned body) = succeeded
outcome_of (thrown e) = failed (api_error e)

unfoldable pub outcome : Transport → Outcome
unfolding read_response
outcome (response r) = outcome_of (read_response r)
outcome unreachable = failed other_error

-- The text that the user is to see of an answer, written apart from the handlers: none for a success;
-- the message of the server, or the client's, for an error response; the page's own if the server
-- was not reached.
abbrev pub complaint : String → Transport → Option String
complaint own (response r) =
    if r.is_ok
    then none
    else some (or_else (text_field "message" (detail_of (body_of r))) "请求失败，请稍后重试。")
complaint own unreachable = some own

-- A form that is answered: it closes without an error, or stays with the complaint.
abbrev pub Closes : {A : Type 0} → Option String → Option A → Option A → String → Type 0
Closes none old new error = (new ≡ none) × (error ≡ "")
Closes (some text) old new error = (new ≡ old) × (error ≡ text)

-- The mutation after the answer: a success runs on until the refresh ends, a failure is over.
abbrev pub left_by : Option String → Run
left_by none = refreshing
left_by (some text) = idle

-- The form of a review, and the rest of the page, after its answer.
pub record ReviewEnds (t : Transport) (old new : DetailPage) : Type 0 where
  pub form : Closes (complaint "审核提交失败" t) old.review_mode new.review_mode new.error
  pub run : new.review_run ≡ left_by (complaint "审核提交失败" t)
  pub over : (step review_refreshed new).0.review_run ≡ idle
  pub action_kept : new.action ≡ old.action
  pub action_run_kept : new.action_run ≡ old.action_run
  pub decision_kept : new.decision ≡ old.decision

pub record ActionEnds (t : Transport) (old new : DetailPage) : Type 0 where
  pub form : Closes (complaint "动作提交失败" t) old.action new.action new.error
  pub run : new.action_run ≡ left_by (complaint "动作提交失败" t)
  pub over : (step action_refreshed new).0.action_run ≡ idle
  pub review_kept : new.review_mode ≡ old.review_mode
  pub review_run_kept : new.review_run ≡ old.review_run
  pub decision_kept : new.decision ≡ old.decision

review-ReviewEnds :
    (t : Transport) (page : DetailPage) → ReviewEnds t page (answer_review (outcome t) page)
unfolding outcome answer_review step
review-ReviewEnds unreachable page = record {
  form = (refl, refl);
  run = refl;
  over = refl;
  action_kept = refl;
  action_run_kept = refl;
  decision_kept = refl;
}
review-ReviewEnds (response r) page = elim (Bool-cases r.is_ok) [
  | inl e ↦ record {
    form = rw e (refl, refl);
    run = rw e refl;
    over = rw e refl;
    action_kept = rw e refl;
    action_run_kept = rw e refl;
    decision_kept = rw e refl;
  }
  | inr e ↦ record {
    form = rw e (refl, refl);
    run = rw e refl;
    over = rw e refl;
    action_kept = rw e refl;
    action_run_kept = rw e refl;
    decision_kept = rw e refl;
  }
]

action-ActionEnds :
    (t : Transport) (page : DetailPage) → ActionEnds t page (answer_action (outcome t) page)
unfolding outcome answer_action step
action-ActionEnds unreachable page = record {
  form = (refl, refl);
  run = refl;
  over = refl;
  review_kept = refl;
  review_run_kept = refl;
  decision_kept = refl;
}
action-ActionEnds (response r) page = elim (Bool-cases r.is_ok) [
  | inl e ↦ record {
    form = rw e (refl, refl);
    run = rw e refl;
    over = rw e refl;
    review_kept = rw e refl;
    review_run_kept = rw e refl;
    decision_kept = rw e refl;
  }
  | inr e ↦ record {
    form = rw e (refl, refl);
    run = rw e refl;
    over = rw e refl;
    review_kept = rw e refl;
    review_run_kept = rw e refl;
    decision_kept = rw e refl;
  }
]

-- Whatever the server answers, or if it is not reached, the form that was sent closes without an
-- error, or stays open with the complaint: the message of the server, the client's if the error has
-- none, or the page's own if the server was not reached. After a failure the command no longer runs;
-- after a success it runs until the refresh ends, and then no longer. The other form, the other
-- command and the shown decision stay as the answer finds them.
pub outcome-ends :
    (t : Transport) (page : DetailPage)
    → ReviewEnds t page (step (review_answered (outcome t)) page).0
      × ActionEnds t page (step (action_answered (outcome t)) page).0
unfolding step
outcome-ends t page = (review-ReviewEnds t page, action-ActionEnds t page)
