-- ===== src/Supplement/Detail/Cards.antt =====
-- The cards and dialogs of DecisionDetailPage.tsx: figures, the four elements, the rules, the
-- explanation, the lanes, the review and the timeline.
use profit_decision_engine.Prelude.{
  String, ℕ, suc, List, [], ◌∷◌, map, Option, none, some, Bool, true, false, ◌==◌, ◌+++◌, filter,
  length, starts_with, join, or_else, truthy, if◌then◌else◌,
}
use profit_decision_engine.Prelude.Decimal.{to_decimal}
use profit_decision_engine.Json.{undefined, obj, end, member}
use profit_decision_engine.Supplement.Data.{Role, Decision, ActionItem, AiContent, TraceEvent}
use profit_decision_engine.Supplement.StatusTag.{status_tag}
use profit_decision_engine.Supplement.Detail.Format.{
  Locale, display, optional, or_dash, format_number, format_currency, format_percent, human_display,
  rule_description, trace_event_label,
}
use profit_decision_engine.Supplement.Detail.Forms.{
  ReviewMode, approve, reject, offers_action, action_button, offers_review, asks_result,
}
use profit_decision_engine.Supplement.Detail.View.{Tag, review_tag}
use profit_decision_engine.Supplement.Texts.{is_operator}

-- A lane of the actions.
pub record Lane : Type 0 where
  pub title : String
  pub tags : List Tag
  pub owner : String
  pub note : Option String
  pub result : Option String
  pub button : Option String

abbrev note_line : Option String → Option String
note_line none = none
note_line (some note) = if truthy note then some ("备注：" +++ note) else none

abbrev review_note_line : Option String → Option String
review_note_line none = none
review_note_line (some note) = if truthy note then some ("审核备注：" +++ note) else none

abbrev shown_note : Option String → Option String
shown_note none = none
shown_note (some note) = if truthy note then some note else none

abbrev map_option : {A B : Type 0} → (A → B) → Option A → Option B
map_option f none = none
map_option f (some a) = some (f a)

-- The events of a track, and the tab's label with their number.
pub record Track : Type 0 where
  pub label : String
  pub rows : List (String × String × Tag × Tag × Option String)

abbrev same_text : Option String → Option String → Bool
same_text none none = true
same_text (some a) (some b) = a == b
same_text _ _ = false

module _ (locale : Locale) where
  open locale use {local_time}

  unfoldable pub metric_items : Bool → Decision → List (String × String × String)
  unfolding format_number format_currency format_percent
  metric_items is_procurement decision =
      if is_procurement
      then ("warehouse", "仓内库存", format_number locale (optional decision.warehouse_qty) 1)
        ∷ ("transit", "在途库存", format_number locale (optional decision.in_transit_qty) 1)
        ∷ ("sales14", "最近 14 天销量", format_number locale (optional decision.sales_units_14d) 1)
        ∷ ("days", "库存可售天数", format_number locale (optional decision.inventory_days) 1 +++ " 天")
        ∷ []
      else ("sales", "上一完整自然月净销售额", format_currency locale (optional decision.net_sales))
        ∷ ("profit", "经营准利润率", format_percent locale (optional decision.profit_rate))
        ∷ ("promotion", "推广费用", format_currency locale (optional decision.promotion_expense))
        ∷ ("return", "最近 7 天品退率", format_percent locale (optional decision.return_rate_7d))
        ∷ ("rule", "规则版本", or_else decision.rule_version "—")
        ∷ ("rules", "触发规则", or_dash (join "、" (or_else decision.triggered_rules [])))
        ∷ []

  -- `evidence[key]`, where a missing key is undefined
  unfoldable pub four_elements : Decision → List (String × String)
  unfolding human_display
  four_elements decision =
      let evidence = or_else decision.four_elements end in
      let shown =
        λ (key : String). human_display locale (or_else (member key evidence) undefined) in
      ("具体对象", shown "object")
      ∷ ("发现问题", shown "problem")
      ∷ ("关键依据", shown "evidence")
      ∷ ("推荐动作", shown "action")
      ∷ []

  rule_steps : ℕ → List String → Decision → List (String × String × String)
  unfolding to_decimal rule_description
  rule_steps n [] decision = []
  rule_steps n (rule ∷ rules) decision =
      (to_decimal (suc n), rule_description locale rule decision, rule)
      ∷ rule_steps (suc n) rules decision

  unfoldable pub rule_path : Decision → List (String × String × String)
  unfolding rule_steps
  rule_path decision = rule_steps 0 (or_else decision.triggered_rules []) decision

  -- The type, the message and the description of the alert.
  unfoldable pub ai_alert : Option AiContent → String × String × String
  unfolding display
  ai_alert none = ("info", "AI 解释暂不可用，固定规则建议可继续处理", "结构化四要素、审核和执行均不受影响。")
  ai_alert (some ai) =
      let generated = ai.status == "generated" in
      (
        (if generated then "success" else "info"),
        (if generated then "AI 增强解释已生成" else "AI 解释暂不可用，固定规则建议可继续处理"),
        or_else (map_option (λ fields. display locale (obj fields)) ai.content)
            "结构化四要素、审核和执行均不受影响。",
      )

  unfoldable pub lane_view : Option Role → ActionItem → Lane
  unfolding status_tag to_decimal offers_action human_display
  lane_view role lane = record {
    title = if is_operator lane.owner_role then "经营动作" else "采购动作";
    tags = status_tag lane.action_value ∷ status_tag lane.execution_state ∷ [];
    owner =
        "责任角色："
        +++ ((if is_operator lane.owner_role then "运营" else "采购计划")
            +++ (" · 版本 " +++ to_decimal lane.execution_version));
    note = note_line lane.execution_note;
    result = map_option (λ fields. "结果：" +++ human_display locale (obj fields)) lane.result;
    button = if offers_action role lane then some (action_button lane) else none;
  }

  abbrev reviewed_time : Option String → String
  reviewed_time none = ""
  reviewed_time (some at) = if truthy at then local_time at else ""

  reviewer_text : Option String → Option String → Option String
  reviewer_text none at = none
  reviewer_text (some reviewer) at =
      if truthy reviewer then some (reviewer +++ (" · " +++ reviewed_time at)) else none

  -- The tag, who reviewed and when, the note, and the buttons.
  unfoldable pub review_card :
      Option Role → Decision → List Tag × Option String × Option String × List String
  unfolding review_tag reviewer_text offers_review
  review_card role decision = (
    review_tag decision,
    reviewer_text decision.reviewed_by decision.reviewed_at,
    review_note_line decision.review_note,
    (if offers_review role decision then "通过整条建议" ∷ "驳回" ∷ [] else []),
  )

  row_of : TraceEvent → String × String × Tag × Tag × Option String
  unfolding trace_event_label status_tag
  row_of event = (
    trace_event_label event.event_type,
    event.actor_ref +++ (" · " +++ local_time event.occurred_at),
    status_tag event.from_state,
    status_tag event.to_state,
    shown_note event.note,
  )

  track : String → (TraceEvent → Bool) → List TraceEvent → Track
  unfolding row_of to_decimal
  track label predicate items =
      let events = filter predicate items in
      record { label = label +++ (" " +++ to_decimal (length events)); rows = map row_of events }

  -- The three tabs of the timeline.
  unfoldable pub timeline : Decision → List TraceEvent → List Track
  unfolding track
  timeline decision items =
      track "审核" (λ event. starts_with event.event_type "review_") items
      ∷ track "经营" (λ event. same_text event.action decision.main_action) items
      ∷ track "采购" (λ event. same_text event.action (some decision.replenishment_action)) items
      ∷ []

-- The two dialogs: the title, the alert of a review with its type, the label of the note, and the
-- fields of an action.
abbrev pub is_reject : ReviewMode → Bool
is_reject reject = true
is_reject approve = false

unfoldable pub review_dialog : ReviewMode → String × String × String × String
review_dialog mode =
    if is_reject mode
    then ("驳回整条建议", "warning", "驳回后两条动作轨道均不能执行", "驳回原因")
    else ("通过整条建议", "info", "通过后经营与采购轨道分别进入可执行状态", "审核备注")

unfoldable pub action_dialog : ActionItem → String × List String
action_dialog lane = (
  (if lane.execution_state == "pending" then "确认执行动作" else "记录动作结果"),
  "执行备注" ∷ (if asks_result lane then "结果记录" ∷ [] else []),
)
