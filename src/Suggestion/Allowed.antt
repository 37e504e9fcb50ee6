-- ===== src/Suggestion/Allowed.antt =====
-- Which requests the detail page may send: the rules of the two roles, written apart from the
-- handlers.
use mathlib.Core.List.{Memᴰ}
use profit_decision_engine.Prelude.{some, true, false, ◌==◌, ◌≡◌}
use profit_decision_engine.Access.Session.{BusinessRole, operations, supervisor}
use profit_decision_engine.Schema.{OaNotification, pending, ClearanceCompletion}
use profit_decision_engine.Api.{
  Request, business, inventory, execute_action, record_action_result, submit_clearance_completion,
  send_oa_notification, retry_oa_notification, ClearanceDecision, returned, override_suggestion,
  terminate_suggestion, review_clearance_completion, reject, review_suggestion,
  retry_ai_explanation,
}
use profit_decision_engine.Suggestion.Feedback.{Browser, blank, is_text, is_approved}
use profit_decision_engine.Suggestion.Operations.{
  can_execute, has_executed, can_submit_clearance, submission, offers_retry,
}
use profit_decision_engine.Suggestion.Supervisor.{can_override, can_terminate, or_null}
use profit_decision_engine.Suggestion.Page.{DetailPage}

-- The page is not in history mode, and the session has the role.
pub record ActsAs (role : BusinessRole) (page : DetailPage) : Type 0 where
  pub current : page.history_mode ≡ false
  pub holds : page.role ≡ some role

module _ (browser : Browser) where
  open browser use {encode, key, instant}

  -- The requests that the page may send, each with what must hold for it. Every version is the one
  -- of the detail that is shown.
  pub data Allowed (page : DetailPage) (r : Request) : Type 0 where
    review :
        ActsAs supervisor page
        → page.detail.item.review_status ≡ pending
        → (page.review_choice ≡ reject → blank page.note ≡ false)
        → r
          ≡ review_suggestion encode key page.link_id page.review_choice page.note
              page.detail.item.review_version
        → Allowed page r
    override :
        ActsAs supervisor page
        → can_override page.detail ≡ true
        → blank page.supervising.reason ≡ false
        → r
          ≡ override_suggestion encode key page.detail.item.link_id page.supervising.business_action
              (or_null page.supervising.inventory_action)
              page.supervising.reason
              page.detail.item.review_version
        → Allowed page r
    terminate :
        ActsAs supervisor page
        → can_terminate page.detail ≡ true
        → blank page.supervising.reason ≡ false
        → r
          ≡ terminate_suggestion encode key page.detail.item.link_id page.supervising.reason
              page.detail.item.review_version
        → Allowed page r
    review_clearance :
        ActsAs supervisor page
        → (decision : ClearanceDecision) → (completion : ClearanceCompletion)
        → page.detail.clearance_completion ≡ some completion
        → (completion.status == "pending_confirmation") ≡ true
        → (decision ≡ returned → blank page.supervising.return_reason ≡ false)
        → r
          ≡ review_clearance_completion encode key page.detail.item.task_id decision
              page.supervising.return_reason completion.submission_version
        → Allowed page r
    execute_business :
        ActsAs operations page
        → can_execute page.detail business ≡ true
        → (is_text page.detail.item.effective_business_action "observe" ≡ true
            → blank page.operating.business_note ≡ false)
        → r
          ≡ execute_action encode key page.detail.item.task_id business
              page.detail.item.business_version page.operating.business_note
        → Allowed page r
    execute_inventory :
        ActsAs operations page
        → can_execute page.detail inventory ≡ true
        → blank page.operating.inventory_note ≡ false
        → r
          ≡ execute_action encode key page.detail.item.task_id inventory
              page.detail.item.inventory_version page.operating.inventory_note
        → Allowed page r
    save_result :
        ActsAs operations page
        → is_approved page.detail.item.review_status ≡ true
        → has_executed page.detail ≡ true
        → blank page.operating.result_note ≡ false
        → r
          ≡ record_action_result encode key page.detail.item.task_id
              (submission browser page.detail page.operating)
        → Allowed page r
    submit_clearance :
        ActsAs operations page
        → is_approved page.detail.item.review_status ≡ true
        → can_submit_clearance page.detail ≡ true
        → blank page.operating.clearance_note ≡ false
        → r
          ≡ submit_clearance_completion encode key page.detail.item.task_id
              (instant page.operating.completed_at)
              page.operating.clearance_note
              page.detail.item.business_version
        → Allowed page r
    send_oa :
        ActsAs operations page
        → can_execute page.detail inventory ≡ true
        → blank page.operating.oa_recipient ≡ false
        → blank page.operating.oa_request ≡ false
        → r
          ≡ send_oa_notification encode page.detail.item.task_id page.operating.oa_recipient
              page.operating.oa_request
        → Allowed page r
    retry_oa :
        ActsAs operations page
        → is_approved page.detail.item.review_status ≡ true
        → (n : OaNotification) → Memᴰ n page.detail.notifications
        → offers_retry page.detail n ≡ true
        → r ≡ retry_oa_notification encode key page.detail.item.task_id n.id
        → Allowed page r
    retry_ai :
        page.history_mode ≡ false
        → (page.detail.ai_status == "generating") ≡ false
        → r ≡ retry_ai_explanation encode key page.link_id
        → Allowed page r
