-- ===== src/Suggestion/Laws.antt =====
-- When the panels send a request, and which one: the presses, one by one.
use mathlib.Core.List.{Memᴰ}
use profit_decision_engine.Prelude.{
  ℕ, Option, none, get_elem?, Memᴰ-get_elem?, refl, some, Bool, true, false, not, ◌&&◌, ◌==◌, ◌≡◌,
  arith, truthy,
}
use profit_decision_engine.Schema.{SuggestionDetail, OaNotification, ClearanceCompletion}
use profit_decision_engine.Api.{
  Request, Track, inventory, execute_action, record_action_result, submit_clearance_completion,
  send_oa_notification, retry_oa_notification, ClearanceDecision, override_suggestion,
  terminate_suggestion, review_clearance_completion,
}
use profit_decision_engine.Suggestion.Feedback.{Browser, is_running, blank, is_text, is_approved}
use profit_decision_engine.Suggestion.Operations.{
  OperationsPanel, press_execute, execute, press_result, press_clearance, press_oa_send,
  press_oa_retry, resend, can_execute, is_inventory, note_of, version_of, has_executed,
  can_submit_clearance, submission, offers_retry,
}
use profit_decision_engine.Suggestion.Supervisor.{
  SupervisorPanel, press_override, press_terminate, review_completion, can_override, can_terminate,
  can_decide, or_null,
}

module _ (browser : Browser) (detail : SuggestionDetail) (panel : OperationsPanel)
    (r : Request) where
  open browser use {encode, key, date, instant}

  pub press_execute-some :
      (track : Track) (agreed : Bool)
      → (press_execute browser detail track agreed panel).1 ≡ some r
      → (can_execute detail track ≡ true)
        × (is_running panel.command ≡ false)
        × (agreed ≡ true)
        × ((is_inventory track && blank (note_of panel track)) ≡ false)
        × ((is_text detail.item.effective_business_action "observe"
              && (not (is_inventory track) && blank (note_of panel track)))
            ≡ false)
        × (r
            ≡ execute_action encode key detail.item.task_id track
                (version_of detail track)
                (note_of panel track))
  unfolding press_execute execute
  press_execute-some track agreed e = ground arith

  pub press_result-some :
      (agreed : Bool)
      → (press_result browser detail agreed panel).1 ≡ some r
      → (is_approved detail.item.review_status ≡ true)
        × (has_executed detail ≡ true)
        × (is_running panel.result ≡ false)
        × (agreed ≡ true)
        × (truthy panel.period_start ≡ true)
        × (truthy panel.period_end ≡ true)
        × (blank panel.result_note ≡ false)
        × (r
            ≡ record_action_result encode key detail.item.task_id (submission browser detail panel))
  unfolding press_result
  press_result-some agreed e = ground arith

  pub press_clearance-some :
      (agreed : Bool)
      → (press_clearance browser detail agreed panel).1 ≡ some r
      → (is_approved detail.item.review_status ≡ true)
        × (can_submit_clearance detail ≡ true)
        × (is_running panel.clearance ≡ false)
        × (agreed ≡ true)
        × (truthy panel.completed_at ≡ true)
        × (blank panel.clearance_note ≡ false)
        × (r
            ≡ submit_clearance_completion encode key detail.item.task_id
                (instant panel.completed_at)
                panel.clearance_note
                detail.item.business_version)
  unfolding press_clearance
  press_clearance-some agreed e = ground arith

  pub press_oa_send-some :
      (press_oa_send browser detail panel).1 ≡ some r
      → (can_execute detail inventory ≡ true)
        × (is_running panel.oa_send ≡ false)
        × (blank panel.oa_recipient ≡ false)
        × (blank panel.oa_request ≡ false)
        × (r ≡ send_oa_notification encode detail.item.task_id panel.oa_recipient panel.oa_request)
  unfolding press_oa_send
  press_oa_send-some e = ground arith

  resend-some :
      (n : OaNotification)
      → (resend browser detail (some n) panel).1 ≡ some r
      → (is_approved detail.item.review_status ≡ true)
        × (offers_retry detail n ≡ true)
        × (is_running panel.oa_retry ≡ false)
        × (r ≡ retry_oa_notification encode key detail.item.task_id n.id)
  unfolding resend
  resend-some n e = ground arith

  resend-listed :
      (o : Option OaNotification)
      → ((n : OaNotification) → o ≡ some n → Memᴰ n detail.notifications)
      → (resend browser detail o panel).1 ≡ some r
      → (n : OaNotification) × Memᴰ n detail.notifications
        × (is_approved detail.item.review_status ≡ true)
        × (offers_retry detail n ≡ true)
        × (r ≡ retry_oa_notification encode key detail.item.task_id n.id)
  unfolding resend
  resend-listed none listed e = cc
  resend-listed (some n) listed e =
      let (p, o, _, same) = resend-some n e in (n, listed n refl, p, o, same)

  pub press_oa_retry-some :
      (i : ℕ)
      → (press_oa_retry browser detail i panel).1 ≡ some r
      → (n : OaNotification) × Memᴰ n detail.notifications
        × (is_approved detail.item.review_status ≡ true)
        × (offers_retry detail n ≡ true)
        × (r ≡ retry_oa_notification encode key detail.item.task_id n.id)
  unfolding press_oa_retry
  press_oa_retry-some i e =
      resend-listed (get_elem? detail.notifications i)
        (λ n. Memᴰ-get_elem? detail.notifications i n) e

module _ (browser : Browser) (detail : SuggestionDetail) (panel : SupervisorPanel)
    (r : Request) where
  open browser use {encode, key, date}

  pub press_override-some :
      (agreed : Bool)
      → (press_override browser detail agreed panel).1 ≡ some r
      → (can_override detail ≡ true)
        × (blank panel.reason ≡ false)
        × (is_running panel.overriding ≡ false)
        × (agreed ≡ true)
        × (r
            ≡ override_suggestion encode key detail.item.link_id panel.business_action
                (or_null panel.inventory_action)
                panel.reason
                detail.item.review_version)
  unfolding press_override
  press_override-some agreed e = ground arith

  pub press_terminate-some :
      (agreed : Bool)
      → (press_terminate browser detail agreed panel).1 ≡ some r
      → (can_terminate detail ≡ true)
        × (blank panel.reason ≡ false)
        × (is_running panel.terminating ≡ false)
        × (agreed ≡ true)
        × (r
            ≡ terminate_suggestion encode key detail.item.link_id panel.reason
                detail.item.review_version)
  unfolding press_terminate
  press_terminate-some agreed e = ground arith

  pub review_completion-some :
      (decision : ClearanceDecision) (c : ClearanceCompletion)
      → (review_completion browser (some c) detail decision panel).1 ≡ some r
      → ((c.status == "pending_confirmation") ≡ true)
        × (can_decide browser decision panel ≡ true)
        × (r
            ≡ review_clearance_completion encode key detail.item.task_id decision
                panel.return_reason c.submission_version)
  unfolding review_completion
  review_completion-some decision c e = ground arith
