-- ===== src/Suggestion/Page.antt =====
-- The page of web/src/pages/SuggestionDetailPage.tsx: the review form, which panel is shown to whom,
-- and one step for each event.
use profit_decision_engine.Prelude.{
  String, ℕ, List, [], ◌∷◌, Option, none, some, Bool, true, false, not, ◌&&◌, ◌==◌, if◌then◌else◌,
}
use profit_decision_engine.Access.Session.{BusinessRole, operations, supervisor}
use profit_decision_engine.Schema.{SuggestionDetail}
use profit_decision_engine.Api.{
  Request, Track, ReviewDecision, approve, reject, ClearanceDecision, review_suggestion,
  retry_ai_explanation,
}
use profit_decision_engine.Suggestion.Feedback.{
  Browser, Mutation, running, succeeded, errored, is_running, Outcome, updated, refused, blank,
  is_pending_review, conflict_feedback,
}
use profit_decision_engine.Suggestion.Operations.{
  OperationsPanel, press_execute, press_result, press_clearance, press_oa_send, press_oa_retry,
  command_answered, result_answered, clearance_answered, oa_send_answered, oa_retry_answered,
}
use profit_decision_engine.Suggestion.Supervisor.{
  SupervisorPanel, press_override, press_terminate, press_review, override_answered,
  terminate_answered, review_answered,
}

-- A loaded page. `link_id` is the one of the route; `role` is none while the session is not loaded.
pub record DetailPage : Type 0 where
  pub link_id : String
  pub history_mode : Bool
  pub role : Option BusinessRole
  pub detail : SuggestionDetail
  pub review_choice : ReviewDecision
  pub note : String
  pub message : String
  pub review : Mutation
  pub ai_retry : Mutation
  pub operating : OperationsPanel
  pub supervising : SupervisorPanel

abbrev pub is_reject : ReviewDecision → Bool
is_reject reject = true
is_reject approve = false

-- Which controls the page shows.
abbrev pub supervises : Option BusinessRole → Bool → Bool
supervises (some supervisor) history_mode = not history_mode
supervises _ history_mode = false

abbrev pub operates : Option BusinessRole → Bool → Bool
operates (some operations) history_mode = not history_mode
operates _ history_mode = false

abbrev pub shows_supervision : DetailPage → Bool
shows_supervision page = supervises page.role page.history_mode

abbrev pub shows_operations : DetailPage → Bool
shows_operations page = operates page.role page.history_mode

-- What a command of the panels does.
pub data Operation : Type 0 where
  executing : Track → Bool → Operation
  saving_result submitting_clearance : Bool → Operation
  sending : Operation
  resending : ℕ → Operation

pub data Supervision : Type 0 where
  overriding terminating : Bool → Supervision
  deciding : ClearanceDecision → Supervision

pub data Command : Type 0 where
  reviewed ai_retried executed result_saved clearance_submitted sent resent : Command
  overridden terminated decided : Command

-- What happens to the page: fields are edited, a control is pressed, or a command is answered.
pub data Event : Type 0 where
  chose : ReviewDecision → Event
  wrote : String → Event
  edited_operations : OperationsPanel → Event
  edited_supervision : SupervisorPanel → Event
  pressed_review : Bool → Event
  pressed_ai_retry : Event
  pressed_operation : Operation → Event
  pressed_supervision : Supervision → Event
  answered : Command → Outcome → Event

-- Typing changes fields only: messages and running commands stay as they are.
abbrev typed_operations : OperationsPanel → OperationsPanel → OperationsPanel
typed_operations old new = record new {
  feedback = old.feedback;
  command = old.command;
  result = old.result;
  clearance = old.clearance;
  oa_send = old.oa_send;
  oa_retry = old.oa_retry;
}

abbrev typed_supervision : SupervisorPanel → SupervisorPanel → SupervisorPanel
typed_supervision old new = record new {
  feedback = old.feedback;
  overriding = old.overriding;
  terminating = old.terminating;
  reviewing = old.reviewing;
}

abbrev answered_detail : Outcome → SuggestionDetail → SuggestionDetail
answered_detail (updated new) old = new
answered_detail (refused failure) old = old

module _ (browser : Browser) where
  open browser use {encode, key, date}

  -- `submit`
  unfoldable pub submit_review : Bool → DetailPage → DetailPage × Option Request
  unfolding blank
  submit_review confirmed page =
      if is_reject page.review_choice && blank page.note
      then (record page { message = "驳回时必须填写原因。" }, none)
      else if not confirmed
      then (page, none)
      else (
        record page { message = ""; review = running },
        some (
            review_suggestion encode key page.link_id page.review_choice page.note
              page.detail.item.review_version),
      )

  unfoldable pub press_submit_review : Bool → DetailPage → DetailPage × Option Request
  unfolding submit_review
  press_submit_review confirmed page =
      if shows_supervision page
        && (is_pending_review page.detail.item.review_status && not (is_running page.review))
      then submit_review confirmed page
      else (page, none)

  unfoldable pub press_ai_retry : DetailPage → DetailPage × Option Request
  press_ai_retry page =
      if not page.history_mode
        && (not (page.detail.ai_status == "generating") && not (is_running page.ai_retry))
      then (record page { ai_retry = running }, some (retry_ai_explanation encode key page.link_id))
      else (page, none)

  unfoldable pub operate : Operation → DetailPage → OperationsPanel × Option Request
  unfolding press_execute press_result press_clearance press_oa_send press_oa_retry
  operate (executing track confirmed) page =
      press_execute browser page.detail track confirmed page.operating
  operate (saving_result confirmed) page = press_result browser page.detail confirmed page.operating
  operate (submitting_clearance confirmed) page =
      press_clearance browser page.detail confirmed page.operating
  operate sending page = press_oa_send browser page.detail page.operating
  operate (resending index) page = press_oa_retry browser page.detail index page.operating

  unfoldable pub supervise : Supervision → DetailPage → SupervisorPanel × Option Request
  unfolding press_override press_terminate press_review
  supervise (overriding agreed) page = press_override browser page.detail agreed page.supervising
  supervise (terminating agreed) page = press_terminate browser page.detail agreed page.supervising
  supervise (deciding decision) page = press_review browser page.detail decision page.supervising

  abbrev with_operating :
      DetailPage → OperationsPanel × Option Request → DetailPage × Option Request
  with_operating page (panel, request) = (record page { operating = panel }, request)

  abbrev with_supervising :
      DetailPage → SupervisorPanel × Option Request → DetailPage × Option Request
  with_supervising page (panel, request) = (record page { supervising = panel }, request)

  abbrev review_message : Outcome → String
  unfolding conflict_feedback
  review_message (updated new) = "审核已保存，两条动作轨已按结果更新。"
  review_message (refused failure) = conflict_feedback date failure "审核提交失败，输入已保留。"

  abbrev ai_message : Outcome → String
  ai_message (updated new) = "已基于同一冻结数据进入异步生成，业务操作不受影响。"
  ai_message (refused failure) = "重新生成请求失败，请稍后重试。"

  abbrev ended : Outcome → Mutation
  ended (updated new) = succeeded
  ended (refused failure) = errored

  -- The answer to a command: a new detail replaces the shown one, and the sender is told.
  unfoldable pub answer : Command → Outcome → DetailPage → DetailPage
  unfolding command_answered result_answered clearance_answered oa_send_answered oa_retry_answered
      override_answered terminate_answered review_answered review_message
  answer command outcome page =
      let page = record page { detail = answered_detail outcome page.detail } in
      elim command [
        | reviewed ↦ record page { review = ended outcome; message = review_message outcome }
        | ai_retried ↦ record page { ai_retry = ended outcome; message = ai_message outcome }
        | executed ↦ record page { operating = command_answered browser outcome page.operating }
        | result_saved ↦ record page { operating = result_answered browser outcome page.operating }
        | clearance_submitted ↦ record page {
          operating = clearance_answered browser outcome page.operating;
        }
        | sent ↦ record page { operating = oa_send_answered browser outcome page.operating }
        | resent ↦ record page { operating = oa_retry_answered browser outcome page.operating }
        | overridden ↦ record page {
          supervising = override_answered browser outcome page.supervising;
        }
        | terminated ↦ record page {
          supervising = terminate_answered browser outcome page.supervising;
        }
        | decided ↦ record page { supervising = review_answered browser outcome page.supervising }
      ]

  unfoldable pub step : Event → DetailPage → DetailPage × Option Request
  unfolding press_submit_review press_ai_retry operate supervise answer
  step (chose decision) page = (record page { review_choice = decision }, none)
  step (wrote text) page = (record page { note = text }, none)
  step (edited_operations panel) page =
      (record page { operating = typed_operations page.operating panel }, none)
  step (edited_supervision panel) page =
      (record page { supervising = typed_supervision page.supervising panel }, none)
  step (pressed_review confirmed) page = press_submit_review confirmed page
  step pressed_ai_retry page = press_ai_retry page
  step (pressed_operation operation) page =
      if shows_operations page then with_operating page (operate operation page) else (page, none)
  step (pressed_supervision supervision) page =
      if shows_supervision page
      then with_supervising page (supervise supervision page)
      else (page, none)
  step (answered command outcome) page = (answer command outcome page, none)

  -- The requests that a sequence of events sends, in order.
  abbrev pub sent_by : DetailPage × Option Request → List Request → List Request
  sent_by (page, none) rest = rest
  sent_by (page, some request) rest = request ∷ rest

  unfoldable pub requests : DetailPage → List Event → List Request
  unfolding step
  requests page [] = []
  requests page (event ∷ rest) =
      let after = step event page in sent_by after (requests after.0 rest)
