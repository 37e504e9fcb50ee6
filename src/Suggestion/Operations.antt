-- ===== src/Suggestion/Operations.antt =====
-- `OperationsPanel` of web/src/pages/SuggestionDetailPage.tsx: what the responsible operator does. A
-- `press` is a click or a submission: the control must be shown and enabled, and the fields that
-- the form requires must be filled in. `confirmed` is the answer to `window.confirm`.
use profit_decision_engine.Prelude.{
  String, ℕ, List, [], ◌∷◌, Option, none, some, Bool, true, false, not, ◌&&◌, ◌||◌, ◌==◌, truthy,
  if◌then◌else◌, get_elem?,
}
use profit_decision_engine.Schema.{SuggestionDetail, OaNotification, ClearanceCompletion}
use profit_decision_engine.Api.{
  Request, Track, business, inventory, execute_action, record_action_result,
  submit_clearance_completion, send_oa_notification, retry_oa_notification, ResultSubmission,
}
use profit_decision_engine.Suggestion.Feedback.{
  Browser, Mutation, running, succeeded, errored, is_running, Outcome, updated, refused, blank,
  is_text, is_approved, conflict_feedback,
}

pub record OperationsPanel : Type 0 where
  pub business_note : String
  pub inventory_note : String
  pub result_note : String
  pub period_start : String
  pub period_end : String
  pub sales : String
  pub profit : String
  pub stock : String
  pub feedback : String
  pub completed_at : String
  pub clearance_note : String
  pub oa_recipient : String
  pub oa_request : String
  pub command : Mutation
  pub result : Mutation
  pub clearance : Mutation
  pub oa_send : Mutation
  pub oa_retry : Mutation

abbrev pub is_inventory : Track → Bool
is_inventory inventory = true
is_inventory business = false

abbrev pub version_of : SuggestionDetail → Track → ℕ
version_of detail business = detail.item.business_version
version_of detail inventory = detail.item.inventory_version

abbrev pub note_of : OperationsPanel → Track → String
note_of panel business = panel.business_note
note_of panel inventory = panel.inventory_note

-- `item.effective_inventory_action ? … : null`
abbrev has_inventory_action : Option String → Bool
has_inventory_action none = false
has_inventory_action (some action) = truthy action

abbrev pub state_of : SuggestionDetail → Track → String
state_of detail business = detail.item.business_state
state_of detail inventory = detail.item.inventory_state

-- The controls of a track are shown, and the track waits for its execution.
abbrev track_shown : SuggestionDetail → Track → Bool
track_shown detail business = true
track_shown detail inventory = has_inventory_action detail.item.effective_inventory_action

abbrev pub can_execute : SuggestionDetail → Track → Bool
can_execute detail track =
    is_approved detail.item.review_status
    && (track_shown detail track && (state_of detail track == "pending_execution"))

abbrev pub has_executed : SuggestionDetail → Bool
has_executed detail =
    detail.item.business_state == "executed" || detail.item.business_state == "result_recorded"

abbrev not_submitted_or_returned : Option ClearanceCompletion → Bool
not_submitted_or_returned none = true
not_submitted_or_returned (some completion) = completion.status == "returned"

-- `canSubmitClearance`
abbrev pub can_submit_clearance : SuggestionDetail → Bool
can_submit_clearance detail =
    is_text detail.item.effective_business_action "clearance"
    && (has_executed detail && not_submitted_or_returned detail.clearance_completion)

-- The failed notifications that the panel offers to send again.
abbrev pub offers_retry : SuggestionDetail → OaNotification → Bool
offers_retry detail n =
    n.status == "failed"
    && (n.type == "coordination" && has_inventory_action detail.item.effective_inventory_action
        || n.type == "clearance_reminder"
          && is_text detail.item.effective_business_action "clearance")

-- `value === '' ? null : Number(value)`
abbrev pub figure_of : (String → String) → String → Option String
figure_of figure value = if truthy value then some (figure value) else none

module _ (browser : Browser) where
  open browser use {encode, key, date, instant, figure}

  abbrev pub submission : SuggestionDetail → OperationsPanel → ResultSubmission
  submission detail panel = record {
    period_start = panel.period_start;
    period_end = panel.period_end;
    sales_value = figure_of figure panel.sales;
    profit_value = figure_of figure panel.profit;
    inventory_value = figure_of figure panel.stock;
    sales_unavailable = not (truthy panel.sales);
    profit_unavailable = not (truthy panel.profit);
    inventory_unavailable = not (truthy panel.stock);
    note = panel.result_note;
    version = detail.item.business_version;
  }

  -- `execute`
  unfoldable pub execute :
      SuggestionDetail → Track → String → Bool → OperationsPanel → OperationsPanel × Option Request
  unfolding blank
  execute detail track note confirmed panel =
      if is_inventory track && blank note
      then (record panel { feedback = "库存协同必须填写经责任运营核验的处理说明。" }, none)
      else if is_text detail.item.effective_business_action "observe"
          && (not (is_inventory track) && blank note)
      then (record panel { feedback = "观察动作必须填写实际观察或优化说明。" }, none)
      else if not confirmed
      then (panel, none)
      else (
        record panel { feedback = ""; command = running },
        some (execute_action encode key detail.item.task_id track (version_of detail track) note),
      )

  unfoldable pub press_execute :
      SuggestionDetail → Track → Bool → OperationsPanel → OperationsPanel × Option Request
  unfolding execute
  press_execute detail track confirmed panel =
      if can_execute detail track && not (is_running panel.command)
      then execute detail track (note_of panel track) confirmed panel
      else (panel, none)

  unfoldable pub press_result :
      SuggestionDetail → Bool → OperationsPanel → OperationsPanel × Option Request
  unfolding blank
  press_result detail confirmed panel =
      if not (
        is_approved detail.item.review_status
        && has_executed detail
        && not (is_running panel.result))
      then (panel, none)
      else if not (truthy panel.period_start && truthy panel.period_end && truthy panel.result_note)
      then (panel, none)
      else if blank panel.result_note
      then (record panel { feedback = "结果说明必填。" }, none)
      else if not confirmed
      then (panel, none)
      else (
        record panel { result = running },
        some (record_action_result encode key detail.item.task_id (submission detail panel)),
      )

  unfoldable pub press_clearance :
      SuggestionDetail → Bool → OperationsPanel → OperationsPanel × Option Request
  unfolding blank
  press_clearance detail confirmed panel =
      if not (
        is_approved detail.item.review_status
        && can_submit_clearance detail
        && not (is_running panel.clearance))
      then (panel, none)
      else if not (truthy panel.completed_at && truthy panel.clearance_note)
      then (panel, none)
      else if blank panel.clearance_note
      then (record panel { feedback = "清仓完成说明必填。" }, none)
      else if not confirmed
      then (panel, none)
      else (
        record panel { clearance = running },
        some (
            submit_clearance_completion encode key detail.item.task_id (instant panel.completed_at)
              panel.clearance_note detail.item.business_version),
      )

  unfoldable pub press_oa_send :
      SuggestionDetail → OperationsPanel → OperationsPanel × Option Request
  unfolding blank
  press_oa_send detail panel =
      if not (can_execute detail inventory && not (is_running panel.oa_send))
      then (panel, none)
      else if not (truthy panel.oa_recipient && truthy panel.oa_request)
      then (panel, none)
      else if blank panel.oa_recipient || blank panel.oa_request
      then (record panel { feedback = "钉钉 User ID 和反馈要求均必填。" }, none)
      else (
        record panel { oa_send = running },
        some (send_oa_notification encode detail.item.task_id panel.oa_recipient panel.oa_request),
      )

  unfoldable pub resend :
      SuggestionDetail → Option OaNotification → OperationsPanel → OperationsPanel × Option Request
  resend detail none panel = (panel, none)
  resend detail (some notification) panel =
      if is_approved detail.item.review_status
        && (offers_retry detail notification && not (is_running panel.oa_retry))
      then (
        record panel { oa_retry = running },
        some (retry_oa_notification encode key detail.item.task_id notification.id),
      )
      else (panel, none)

  -- The buttons are those of the notifications of the detail.
  unfoldable pub press_oa_retry :
      SuggestionDetail → ℕ → OperationsPanel → OperationsPanel × Option Request
  unfolding resend
  press_oa_retry detail index panel = resend detail (get_elem? detail.notifications index) panel

  abbrev first_sent : List OaNotification → Bool
  first_sent [] = false
  first_sent (n ∷ rest) = n.status == "sent"

  -- What `onSuccess` and `onError` do to the panel; `onUpdated` is the page's.
  unfoldable pub command_answered : Outcome → OperationsPanel → OperationsPanel
  unfolding conflict_feedback
  command_answered (updated answer) panel = record panel {
    command = succeeded;
    feedback = "动作状态已保存。";
  }
  command_answered (refused failure) panel = record panel {
    command = errored;
    feedback = conflict_feedback date failure "提交失败，输入已保留。";
  }

  unfoldable pub result_answered : Outcome → OperationsPanel → OperationsPanel
  unfolding conflict_feedback
  result_answered (updated answer) panel = record panel {
    result = succeeded;
    feedback = "经营结果已追加到时间线。";
  }
  result_answered (refused failure) panel = record panel {
    result = errored;
    feedback = conflict_feedback date failure "结果保存失败，输入已保留。";
  }

  unfoldable pub clearance_answered : Outcome → OperationsPanel → OperationsPanel
  unfolding conflict_feedback
  clearance_answered (updated answer) panel = record panel {
    clearance = succeeded;
    feedback = "实际清仓完成时间已提交主管确认。";
  }
  clearance_answered (refused failure) panel = record panel {
    clearance = errored;
    feedback = conflict_feedback date failure "清仓完成时间提交失败，输入已保留。";
  }

  unfoldable pub oa_send_answered : Outcome → OperationsPanel → OperationsPanel
  oa_send_answered (updated answer) panel = record panel {
    oa_send = succeeded;
    feedback =
        if first_sent answer.notifications
        then "钉钉接口已受理；这不代表送达、已读或业务确认，请继续核验。"
        else "钉钉调用失败，已保留失败记录，可人工补发。";
  }
  oa_send_answered (refused failure) panel = record panel {
    oa_send = errored;
    feedback = "钉钉发送请求失败，输入已保留。";
  }

  unfoldable pub oa_retry_answered : Outcome → OperationsPanel → OperationsPanel
  oa_retry_answered (updated answer) panel = record panel {
    oa_retry = succeeded;
    feedback = if first_sent answer.notifications then "钉钉补发已受理；请继续核验业务反馈。" else "钉钉补发仍失败，失败记录已保留。";
  }
  oa_retry_answered (refused failure) panel = record panel {
    oa_retry = errored;
    feedback = "钉钉补发请求失败。";
  }
