-- ===== src/Supplement/Detail/Forms.antt =====
-- The two forms of DecisionDetailPage.tsx: what a submission sends, and one step for each event.
-- A form calls its handler only when its fields pass the rules; a button that is loading does not
-- submit.
use profit_decision_engine.Prelude.{
  String, ℕ, List, [], ◌∷◌, Option, none, some, Bool, true, false, not, ◌&&◌, ◌||◌, ◌==◌, ◌+++◌,
  get_elem?, elem, eqb, truthy, trim, or_else, if◌then◌else◌,
}
use profit_decision_engine.Prelude.Decimal.{to_decimal}
use profit_decision_engine.Json.{Json, null, num, str, obj, Fields, end, field}
use profit_decision_engine.Supplement.Data.{
  Role, operator, supervisor, procurement, Decision, ActionItem,
}
use profit_decision_engine.Supplement.Client.{ApiError}

pub data ReviewMode : Type 0 where
  approve reject : ReviewMode

-- `ReviewValues` has a note that may be missing; `ActionValues` adds the result.
pub record ActionValues : Type 0 where
  pub note : String
  pub result : Option String

-- A POST and its body
pub record Post : Type 0 where
  pub path : String
  pub body : Fields

abbrev pub mode_text : ReviewMode → String
mode_text approve = "approve"
mode_text reject = "reject"

-- `JSON.stringify` leaves a version out that is undefined.
abbrev with_version : Option ℕ → Fields → Fields
unfolding to_decimal
with_version none rest = rest
with_version (some n) rest = field "version" (num (to_decimal n)) rest

-- `mutationFn` of `reviewMutation`
unfoldable pub review_post : String → Decision → ReviewMode → Option String → Post
unfolding with_version
review_post decision_id decision mode note = record {
  path = "/decisions/" +++ (decision_id +++ "/review");
  body =
      field "decision" (str (mode_text mode))
        (with_version decision.review_version (field "note" (str (or_else note "")) end));
}

abbrev summary_json : Option String → Json
summary_json none = null
summary_json (some text) = if truthy text then obj (field "summary" (str text) end) else null

-- `mutationFn` of `actionMutation`, for the lane whose form is open
unfoldable pub action_post : ActionItem → ActionValues → Post
unfolding with_version
action_post lane values = record {
  path = "/actions/" +++ (lane.action_id +++ "/complete");
  body =
      with_version (some lane.execution_version)
        (field "note" (str values.note) (field "result" (summary_json values.result) end));
}

-- A mutation: not pending, waiting for its answer, or waiting for the refresh that its success
-- starts. `isPending` is true until that refresh has ended.
pub data Run : Type 0 where
  idle sent refreshing : Run

abbrev pub is_pending : Run → Bool
is_pending idle = false
is_pending sent = true
is_pending refreshing = true

-- The refresh has ended.
abbrev pub settle : Run → Run
settle refreshing = idle
settle idle = idle
settle sent = sent

-- The loaded page. `role` is the role of the session's status, and stays what it was.
pub record DetailPage : Type 0 where
  pub decision_id : String
  pub role : Option Role
  pub decision : Decision
  pub review_mode : Option ReviewMode
  pub action : Option ActionItem
  pub error : String
  pub review_run : Run
  pub action_run : Run

abbrev pub same_role : Role → Option Role → Bool
same_role operator (some operator) = true
same_role supervisor (some supervisor) = true
same_role procurement (some procurement) = true
same_role _ _ = false

-- Whether a lane has its button, and its label.
unfoldable pub offers_action : Option Role → ActionItem → Bool
offers_action role lane =
    same_role lane.owner_role role && elem lane.execution_state ("pending" ∷ "executed" ∷ [])

abbrev pub action_button : ActionItem → String
action_button lane = if lane.execution_state == "pending" then "确认执行" else "记录结果"

abbrev is_text : Option String → String → Bool
is_text none t = false
is_text (some s) t = s == t

unfoldable pub offers_review : Option Role → Decision → Bool
offers_review role decision = same_role supervisor role && is_text decision.review_state "pending"

-- The rule `required` with `whitespace`
unfoldable pub filled : Option String → Bool
unfolding trim
filled none = false
filled (some text) = truthy (trim text)

unfoldable pub review_passes : ReviewMode → Option String → Bool
unfolding filled
review_passes approve text = true
review_passes reject text = filled text

abbrev pub asks_result : ActionItem → Bool
asks_result lane = lane.execution_state == "executed"

unfoldable pub action_passes : ActionItem → ActionValues → Bool
unfolding filled
action_passes lane values =
    filled (some values.note) && (not (asks_result lane) || filled values.result)

-- The values of the form: the result is a field of it only when it is asked for.
unfoldable pub form_values : ActionItem → ActionValues → ActionValues
form_values lane values = record values {
  result = if asks_result lane then values.result else none;
}

-- What a mutation is answered with.
pub data Caught : Type 0 where
  api_error : ApiError → Caught
  other_error : Caught

pub data Outcome : Type 0 where
  succeeded : Outcome
  failed : Caught → Outcome

abbrev pub message_or : String → Caught → String
message_or fallback (api_error e) = e.message
message_or fallback other_error = fallback

pub data Event : Type 0 where
  opened_review : ReviewMode → Event
  cancelled_review : Event
  submitted_review : Option String → Event
  opened_lane : ℕ → Event
  cancelled_action : Event
  submitted_action : ActionValues → Event
  review_answered action_answered : Outcome → Event
  review_refreshed action_refreshed : Event
  refetched : Decision → Event

unfoldable pub open_lane : Option ActionItem → DetailPage → DetailPage
unfolding offers_action
open_lane none page = page
open_lane (some lane) page =
    if offers_action page.role lane then record page { action = some lane } else page

unfoldable pub submit_review :
    Option ReviewMode → Option String → DetailPage → DetailPage × Option Post
unfolding review_passes review_post
submit_review none text page = (page, none)
submit_review (some mode) text page =
    if review_passes mode text && not (is_pending page.review_run)
    then (
      record page { review_run = sent },
      some (review_post page.decision_id page.decision mode text),
    )
    else (page, none)

unfoldable pub submit_action :
    Option ActionItem → ActionValues → DetailPage → DetailPage × Option Post
unfolding action_passes action_post form_values
submit_action none values page = (page, none)
submit_action (some lane) values page =
    if action_passes lane values && not (is_pending page.action_run)
    then (record page { action_run = sent }, some (action_post lane (form_values lane values)))
    else (page, none)

-- `onSuccess` and `onError` of the mutations. A success closes the form and awaits `refresh`, which
-- ends in `review_refreshed` or `action_refreshed`; what it loads arrives in `refetched`.
unfoldable pub answer_review : Outcome → DetailPage → DetailPage
answer_review succeeded page = record page {
  review_run = refreshing;
  review_mode = none;
  error = "";
}
answer_review (failed caught) page = record page {
  review_run = idle;
  error = message_or "审核提交失败" caught;
}

unfoldable pub answer_action : Outcome → DetailPage → DetailPage
answer_action succeeded page = record page { action_run = refreshing; action = none; error = "" }
answer_action (failed caught) page = record page {
  action_run = idle;
  error = message_or "动作提交失败" caught;
}

-- One event: the new page, and the request that is sent.
unfoldable pub step : Event → DetailPage → DetailPage × Option Post
unfolding offers_review open_lane submit_review submit_action answer_review answer_action
step (opened_review mode) page =
    if offers_review page.role page.decision
    then (record page { review_mode = some mode }, none)
    else (page, none)
step cancelled_review page = (record page { review_mode = none }, none)
step (submitted_review note) page = submit_review page.review_mode note page
step (opened_lane index) page = (open_lane (get_elem? page.decision.actions index) page, none)
step cancelled_action page = (record page { action = none }, none)
step (submitted_action values) page = submit_action page.action values page
step (review_answered outcome) page = (answer_review outcome page, none)
step (action_answered outcome) page = (answer_action outcome page, none)
step review_refreshed page = (record page { review_run = settle page.review_run }, none)
step action_refreshed page = (record page { action_run = settle page.action_run }, none)
step (refetched decision) page = (record page { decision = decision }, none)

-- The page before anything happens.
unfoldable pub opened : String → Option Role → Decision → DetailPage
opened decision_id role decision = record {
  decision_id = decision_id;
  role = role;
  decision = decision;
  review_mode = none;
  action = none;
  error = "";
  review_run = idle;
  action_run = idle;
}

-- The page after a sequence of events.
unfoldable pub after : List Event → DetailPage → DetailPage
unfolding step
after [] page = page
after (event ∷ events) page = after events (step event page).0

-- The effect on a failed load: where it goes, if anywhere.
unfoldable pub after_load_error : Caught → Option String
after_load_error other_error = none
after_load_error (api_error e) =
    if eqb e.status 403 || eqb e.status 404 then some "/forbidden" else none
