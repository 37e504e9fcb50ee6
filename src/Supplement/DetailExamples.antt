-- ===== src/Supplement/DetailExamples.antt =====
-- Tests of the decision page of the supplementary frontend, and its theorems on concrete values.
use profit_decision_engine.Prelude.{List, [], ◌∷◌, none, some, false, ◌≡◌, ◌+++◌, refl}
use profit_decision_engine.Json.{str, obj, field, end}
use profit_decision_engine.Supplement.Data.{operator, supervisor}
use profit_decision_engine.Supplement.Samples.{lane, sample}
use profit_decision_engine.Supplement.Detail.Format.{Locale, human_display, evidence_value}
use profit_decision_engine.Supplement.Detail.Forms.{
  reject, ActionValues, Event, opened_review, submitted_review, opened_lane, submitted_action,
  review_answered, action_answered, review_refreshed, succeeded, failed, other_error, api_error,
  step, opened, after, action_post, after_load_error, DetailPage,
}
use profit_decision_engine.Supplement.Detail.Commands.{Allowed, after-step-Allowed}
use profit_decision_engine.Supplement.Detail.Protocol.{Exchange, busy, observed}
use profit_decision_engine.Supplement.Detail.Exchange.{observed-Exchange}
use profit_decision_engine.Supplement.Detail.Answers.{
  Transport, response, outcome, ReviewEnds, ActionEnds, outcome-ends,
}

abbrev written : ActionValues
written = record { note = "done"; result = some "sold" }

after-step-Allowed_example :
    Allowed
      (sample ∷ [])
      (after (opened_lane 0 ∷ []) (opened "d1" (some operator) sample))
      (submitted_action written)
      (action_post lane written)
unfolding after step opened
after-step-Allowed_example =
    after-step-Allowed "d1" (some operator) sample (opened_lane 0 ∷ []) (submitted_action written)
      (action_post lane written) refl

-- A review that fails once, and is sent again.
abbrev reviewing : List Event
reviewing =
    opened_review reject
    ∷ submitted_review (some "no")
    ∷ review_answered (failed other_error)
    ∷ submitted_review (some "no")
    ∷ review_answered succeeded
    ∷ review_refreshed
    ∷ []

abbrev page : DetailPage
unfolding opened
page = opened "d1" (some supervisor) sample

observed-Exchange_example :
    Exchange "d1" (busy (after reviewing page)) (busy page) (observed page reviewing)
unfolding after step opened
observed-Exchange_example =
    observed-Exchange reviewing page (tt, (tt, (refl, (tt, (refl, (refl, tt))))))

abbrev locale : Locale
locale = record {
  stringify = λ value. "{}";
  finite = λ value. some "1";
  decimal = λ digits n. n;
  currency = λ n. "¥" +++ n;
  percent = λ n. n +++ "%";
  local_time = λ t. t;
}

-- An error with the server's message.
abbrev conflict : Transport
conflict = response (record {
  status = 409;
  is_ok = false;
  body = some (obj (field "detail" (obj (field "message" (str "stale") end)) end));
})

outcome-ends_example :
    ReviewEnds conflict page (step (review_answered (outcome conflict)) page).0
    × ActionEnds conflict page (step (action_answered (outcome conflict)) page).0
outcome-ends_example = outcome-ends conflict page

conflict_test : (step (review_answered (outcome conflict)) page).0.error ≡ "stale"
unfolding step outcome opened
conflict_test = refl

summary_test : human_display locale (obj (field "summary" (str "s") end)) ≡ "s"
unfolding human_display
summary_test = refl

evidence_test : evidence_value locale "net_sales" (str "1") ≡ "¥1"
unfolding evidence_value
evidence_test = refl

-- A blank reason does not reject.
blank_test : (step (submitted_review (some " ")) (after (opened_review reject ∷ []) page)).1 ≡ none
unfolding step after opened
blank_test = refl

load_error_test :
    (after_load_error (api_error (record { status = 404; code = ""; message = "" }))
      ≡ some "/forbidden")
    × (after_load_error (api_error (record { status = 500; code = ""; message = "" })) ≡ none)
unfolding after_load_error
load_error_test = (refl, refl)
