-- ===== src/Suggestion/Labels.antt =====
-- The labels and the status overview of web/src/pages/SuggestionDetailPage.tsx.
use profit_decision_engine.Prelude.{
  String, ℕ, zero, suc, List, [], ◌∷◌, Option, none, some, Bool, true, false, not, ◌&&◌, ◌==◌,
  ◌+++◌, truthy, includes, lookup, or_else, elem, filter, get_elem?, if◌then◌else◌,
}
use profit_decision_engine.Schema.{
  SuggestionDetail, ActionItem, BusinessEvent, OaNotification, pending, approved, rejected,
  RelationType, new_task, same_action_continuation, action_change_pending,
}

abbrev action_texts : List (String × String)
action_texts =
    ("clearance", "清仓")
    ∷ ("stop_loss", "止损")
    ∷ ("observe", "观察")
    ∷ ("invest", "加投")
    ∷ ("maintain", "维持")
    ∷ ("restock", "补货")
    ∷ ("no_restock", "不补货")
    ∷ ("prohibit_restock", "禁止补货")
    ∷ []

-- `label`
unfoldable pub action_label : Option String → String
action_label none = "不生成"
action_label (some value) =
    if truthy value then or_else (lookup value action_texts) value else "不生成"

abbrev review_texts : List (String × String)
review_texts = ("pending", "待审核") ∷ ("approved", "已通过") ∷ ("rejected", "已驳回") ∷ []

unfoldable pub review_label : String → String
review_label value = or_else (lookup value review_texts) value

abbrev ai_status_texts : List (String × String)
ai_status_texts =
    ("generating", "生成中")
    ∷ ("generated", "已生成")
    ∷ ("failed", "生成失败")
    ∷ ("not_adopted", "内容未采用")
    ∷ ("not_configured", "模型服务未配置")
    ∷ []

unfoldable pub ai_status_label : String → String
ai_status_label value = or_else (lookup value ai_status_texts) value

abbrev state_texts : List (String × String)
state_texts =
    ("pending_review", "待审核")
    ∷ ("pending_execution", "待执行")
    ∷ ("executed", "已执行")
    ∷ ("result_recorded", "已记录结果")
    ∷ ("closed", "已闭环")
    ∷ ("terminated", "已终止")
    ∷ ("not_generated", "不生成")
    ∷ []

unfoldable pub state_label : String → String
state_label value = or_else (lookup value state_texts) value

abbrev quality_field_texts : List (String × String)
quality_field_texts =
    ("quality_return_rate_7d", "近 7 天品退率")
    ∷ ("inventory_days", "库存可售天数")
    ∷ ("inventory_on_hand", "仓内库存")
    ∷ ("inventory_in_transit", "在途库存")
    ∷ ("sales_units_14d", "近 14 天销量")
    ∷ []

unfoldable pub quality_field_label : String → String
quality_field_label value = or_else (lookup value quality_field_texts) value

abbrev quality_value_texts : List (String × String)
quality_value_texts =
    ("missing", "未提供")
    ∷ ("unverified", "未校验")
    ∷ ("not_verified", "未校验")
    ∷ ("insufficient", "数据不足")
    ∷ ("unavailable", "不可计算")
    ∷ []

unfoldable pub quality_value_label : String → String
quality_value_label value = or_else (lookup value quality_value_texts) value

abbrev event_type_texts : List (String × String)
event_type_texts =
    ("review", "主管整体审核")
    ∷ ("task_created", "固定规则建立任务")
    ∷ ("oa_delivery", "钉钉协同通知")
    ∷ ("ai_explanation", "AI 辅助解释")
    ∷ ("business_execution", "经营动作执行")
    ∷ ("inventory_execution", "库存协同核验")
    ∷ ("clearance_completion", "清仓完成提交")
    ∷ []

unfoldable pub event_type_label : String → String
event_type_label value = or_else (lookup value event_type_texts) value

abbrev notification_texts : List (String × String)
notification_texts = ("pending", "待调用") ∷ ("sent", "钉钉已受理") ∷ ("failed", "调用失败") ∷ []

unfoldable pub notification_label : String → String
notification_label value = or_else (lookup value notification_texts) value

unfoldable pub store_platform : String → String → String
store_platform store platform =
    if includes store platform then store else store +++ ("（" +++ (platform +++ "）"))

unfoldable pub relation_text : RelationType → String
relation_text new_task = "本批次新任务"
relation_text same_action_continuation = "跨周同动作续接"
relation_text action_change_pending = "动作变化待确认"

-- `overallState`
unfoldable pub overall_state : ActionItem → String
overall_state item = elim item.review_status [
  | rejected ↦ "已驳回"
  | pending ↦ "待审核"
  | approved ↦
      if item.business_state == "closed"
        && elem item.inventory_state ("closed" ∷ "not_generated" ∷ [])
      then "已闭环"
      else "双轨处理中"
]

-- `qualityLimitations`
unfoldable pub quality_limitations : ActionItem → List (String × String)
quality_limitations item =
    filter (λ entry. not (entry.1 == "valid") && not (entry.1 == "available")) item.quality

-- The last element that passes a test: `[...items].reverse().find(test)`.
abbrev or_found {ℓ} : {A : Type ℓ} → Option A → Bool → A → Option A
or_found (some found) test item = some found
or_found none true item = some item
or_found none false item = none

abbrev find_last {ℓ} : {A : Type ℓ} → (A → Bool) → List A → Option A
find_last test [] = none
find_last test (item ∷ rest) = or_found (find_last test rest) (test item) item

unfoldable pub latest_review : SuggestionDetail → Option BusinessEvent
latest_review detail = find_last (λ event. includes event.type "review") detail.events

unfoldable pub failed_notification : SuggestionDetail → Option OaNotification
failed_notification detail = find_last (λ n. n.status == "failed") detail.notifications

unfoldable pub latest_notification : List OaNotification → String → Option OaNotification
latest_notification items type_ = find_last (λ n. n.type == type_) items

-- `neighborIndex`, and the neighbours before and after it.
abbrev up : Option ℕ → Option ℕ
up none = none
up (some n) = some (suc n)

abbrev find_index : String → List ActionItem → Option ℕ
find_index id [] = none
find_index id (n ∷ rest) =
    let later = find_index id rest in if n.link_id == id then some 0 else up later

abbrev before : List ActionItem → Option ℕ → Option ActionItem
before items none = none
before items (some zero) = none
before items (some (suc n)) = get_elem? items n

abbrev after : List ActionItem → Option ℕ → Option ActionItem
after items none = none
after items (some n) = get_elem? items (suc n)

unfoldable pub neighbors : String → List ActionItem → Option ActionItem × Option ActionItem
neighbors id items = let index = find_index id items in (before items index, after items index)
