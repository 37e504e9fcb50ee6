-- ===== src/Suggestion/Supervisor.antt =====
-- `SupervisorLifecyclePanel` of web/src/pages/SuggestionDetailPage.tsx: override, termination and the
-- review of a completed clearance.
use profit_decision_engine.Prelude.{
  String, [], ◌∷◌, Option, none, some, Bool, not, ◌&&◌, ◌||◌, ◌==◌, truthy, elem, or_else,
  if◌then◌else◌,
}
use profit_decision_engine.Schema.{SuggestionDetail, ClearanceCompletion}
use profit_decision_engine.Api.{
  Request, ClearanceDecision, confirmed, returned, override_suggestion, terminate_suggestion,
  review_clearance_completion,
}
use profit_decision_engine.Suggestion.Feedback.{
  Browser, Mutation, idle, running, succeeded, errored, is_running, Outcome, updated, refused,
  blank, conflict_feedback,
}

pub record SupervisorPanel : Type 0 where
  pub business_action : String
  pub inventory_action : String
  pub reason : String
  pub return_reason : String
  pub feedback : String
  pub overriding : Mutation
  pub terminating : Mutation
  pub reviewing : Mutation

abbrev pub first_panel : SuggestionDetail → SupervisorPanel
first_panel detail = record {
  business_action = or_else detail.item.effective_business_action "observe";
  inventory_action = or_else detail.item.effective_inventory_action "";
  reason = "";
  return_reason = "";
  feedback = "";
  overriding = idle;
  terminating = idle;
  reviewing = idle;
}

-- `canOverride`
abbrev pub can_override : SuggestionDetail → Bool
can_override detail =
    elem detail.item.business_state ("pending_review" ∷ "pending_execution" ∷ "terminated" ∷ [])
    && elem detail.item.inventory_state
        ("pending_review" ∷ "pending_execution" ∷ "not_generated" ∷ "terminated" ∷ [])

abbrev pub can_terminate : SuggestionDetail → Bool
can_terminate detail =
    not (detail.item.business_state == "closed" || detail.item.business_state == "terminated")

-- `inventoryAction || null`
abbrev pub or_null : String → Option String
or_null text = if truthy text then some text else none

module _ (browser : Browser) where
  open browser use {encode, key, date}

  unfoldable pub press_override :
      SuggestionDetail → Bool → SupervisorPanel → SupervisorPanel × Option Request
  unfolding blank
  press_override detail agreed panel =
      if can_override detail
        && not (blank panel.reason)
        && not (is_running panel.overriding)
        && agreed
      then (
        record panel { overriding = running },
        some (
            override_suggestion encode key detail.item.link_id panel.business_action
              (or_null panel.inventory_action) panel.reason detail.item.review_version),
      )
      else (panel, none)

  unfoldable pub press_terminate :
      SuggestionDetail → Bool → SupervisorPanel → SupervisorPanel × Option Request
  unfolding blank
  press_terminate detail agreed panel =
      if can_terminate detail
        && not (blank panel.reason)
        && not (is_running panel.terminating)
        && agreed
      then (
        record panel { terminating = running },
        some (
            terminate_suggestion encode key detail.item.link_id panel.reason
              detail.item.review_version),
      )
      else (panel, none)

  -- The button of a decision is enabled.
  unfoldable pub can_decide : ClearanceDecision → SupervisorPanel → Bool
  unfolding blank
  can_decide confirmed panel = not (is_running panel.reviewing)
  can_decide returned panel = not (blank panel.return_reason) && not (is_running panel.reviewing)

  unfoldable pub review_completion :
      Option ClearanceCompletion
      → SuggestionDetail
      → ClearanceDecision
      → SupervisorPanel
      → SupervisorPanel × Option Request
  unfolding can_decide
  review_completion none detail decision panel = (panel, none)
  review_completion (some completion) detail decision panel =
      if (completion.status == "pending_confirmation") && can_decide decision panel
      then (
        record panel { reviewing = running },
        some (
            review_clearance_completion encode key detail.item.task_id decision panel.return_reason
              completion.submission_version),
      )
      else (panel, none)

  unfoldable pub press_review :
      SuggestionDetail → ClearanceDecision → SupervisorPanel → SupervisorPanel × Option Request
  unfolding review_completion
  press_review detail decision panel =
      review_completion detail.clearance_completion detail decision panel

  unfoldable pub override_answered : Outcome → SupervisorPanel → SupervisorPanel
  unfolding conflict_feedback
  override_answered (updated answer) panel = record panel {
    overriding = succeeded;
    feedback = "人工改判已生成新的生效动作版本。";
  }
  override_answered (refused failure) panel = record panel {
    overriding = errored;
    feedback = conflict_feedback date failure "改判失败；若动作已执行，请先终止旧轨。";
  }

  unfoldable pub terminate_answered : Outcome → SupervisorPanel → SupervisorPanel
  unfolding conflict_feedback
  terminate_answered (updated answer) panel = record panel {
    terminating = succeeded;
    feedback = "原经营与库存协同轨已终止，执行事实仍保留。";
  }
  terminate_answered (refused failure) panel = record panel {
    terminating = errored;
    feedback = conflict_feedback date failure "终止失败，输入已保留。";
  }

  unfoldable pub review_answered : Outcome → SupervisorPanel → SupervisorPanel
  unfolding conflict_feedback
  review_answered (updated answer) panel = record panel {
    reviewing = succeeded;
    feedback = "清仓完成复核已保存。";
  }
  review_answered (refused failure) panel = record panel {
    reviewing = errored;
    feedback = conflict_feedback date failure "清仓完成复核失败。";
  }
