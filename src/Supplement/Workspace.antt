-- ===== src/Supplement/Workspace.antt =====
-- pages/WorkspacePage.tsx of the supplementary frontend.
use profit_decision_engine.Prelude.{
  String, ℕ, List, [], ◌∷◌, ◌++◌, map, Option, none, some, Bool, ◌==◌, ◌+++◌, length, take, truthy,
  or_else, if◌then◌else◌,
}
use profit_decision_engine.Prelude.Decimal.{to_decimal}
use profit_decision_engine.Supplement.Data.{Batch, Decision, AuthStatus}
use profit_decision_engine.Supplement.StatusTag.{status_tag}

-- The answer to /workspace
pub record WorkspaceData : Type 0 where
  pub role : String
  pub role_label : String
  pub batch : Option Batch
  pub metrics : List (String × ℕ)
  pub items : List Decision

abbrev name_of : Option AuthStatus → Option String
name_of none = none
name_of (some status) = status.actor_name

abbrev role_of : Option WorkspaceData → String
role_of none = ""
role_of (some loaded) = loaded.role

abbrev label_of : Option WorkspaceData → String
label_of none = "当前角色"
label_of (some loaded) = loaded.role_label

abbrev imports : String → Bool
imports role = role == "operator"

abbrev hides : String → Bool
hides role = role == "procurement"

-- Title, description, and the button to import with its address.
unfoldable pub heading :
    Option AuthStatus → Option WorkspaceData → String × String × List (String × String)
heading status loaded = (
  "早上好，" +++ or_else (name_of status) "同事",
  "你当前以" +++ (label_of loaded +++ "身份查看本周任务。先处理高优先级待办，再关注跨角色未闭环事项。"),
  (if imports (role_of loaded) then ("导入本周数据", "/batches/new") ∷ [] else []),
)

-- The lines and the address of the batch's card.
unfoldable pub batch_card : Batch → List (String × String) × String
batch_card batch = (
  ("当前发布批次", batch.batch_id)
      ∷ ("完整自然月期间", batch.period_start +++ (" 至 " +++ batch.period_end))
      ∷ ("业务截止日", batch.business_date)
      ∷ ("规则快照", "RULE-V1.0")
      ∷ [],
  "/batches/" +++ batch.batch_id,
)

-- The first three figures, each with the batch as its hint.
unfoldable pub metric_cards : Batch → List (String × ℕ) → List (String × ℕ × String)
metric_cards batch metrics =
    map (λ metric. (metric.0, metric.1, "批次 " +++ batch.batch_id)) (take 3 metrics)

abbrev or_dash : String → String
or_dash text = if truthy text then text else "—"

abbrev awaited : String → String
awaited state = if state == "pending" then "awaiting_review" else state

abbrev tag_text : Option String → String
unfolding status_tag
tag_text value = (status_tag (or_else value "")).1

progress : List String → String
unfolding status_tag
progress [] = ""
progress (state ∷ states) = (status_tag state).1 +++ progress states

progress_cell : Decision → String
unfolding progress
progress_cell item =
    let shown = progress (map (λ action. action.execution_state) item.actions) in
    elim item.actions [ [] ↦ "—" | _ ↦ shown ]

-- The columns of the table for a role, with the text of a decision.
unfoldable pub columns : String → List (String × (Decision → String))
unfolding status_tag progress_cell
columns role =
    ("SPU", λ item. item.spu_name +++ item.spu_id)
      ∷ (if hides role
          then ("店铺", λ item. or_dash item.store)
          else ("店铺 / 责任运营", λ item. or_dash item.store +++ or_dash (or_else item.operator_ref "")))
      ∷ (if hides role then [] else ("经营动作", λ item. tag_text item.main_action) ∷ [])
    ++ (("库存动作", λ item. (status_tag item.replenishment_action).1)
          ∷ (if hides role
              then []
              else ("审核状态", λ item. (status_tag (awaited (or_else item.review_state ""))).1) ∷ [])
        ++ ("动作进度", λ item. progress_cell item) ∷ [])

-- The recent states: title and detail.
unfoldable pub activity : Batch → List Decision → List (String × String)
unfolding to_decimal
activity batch items =
    ("批次校验与规则处理已完成", batch.batch_id)
    ∷ (to_decimal (length items) +++ " 条优先事项等待继续处理", "状态变化会写入追溯记录")
    ∷ ("当前页面使用不可变批次快照", "RULE-V1.0 · " +++ batch.business_date)
    ∷ ("经营与采购动作按角色分轨", "结果分别记录、共同闭环")
    ∷ []

-- What stands below the heading: a notice and its button while there is no batch, else the batch's
-- card, the figures, the table with its link, the recent states with theirs, and the quick links.
pub data Content : Type 0 where
  empty : Option (String × String) → Content
  overview :
      List (String × String) × String
      → List (String × ℕ × String)
      → List (String × (Decision → String))
      → List Decision
      → List (String × String)
      → List (String × String)
      → Content

-- The links of the cards: to the actions, and to the trace of the batch.
abbrev links : Batch → List (String × String)
links batch =
    ("查看全部", "/actions")
    ∷ ("查看追溯", "/trace?batch_id=" +++ batch.batch_id)
    ∷ ("打开行动清单", "/actions")
    ∷ ("查看批次追溯", "/trace?batch_id=" +++ batch.batch_id)
    ∷ []

abbrev import_button : String → Option (String × String)
import_button role = if imports role then some ("新建数据导入", "/batches/new") else none

abbrev below : WorkspaceData → Option Batch → Content
unfolding batch_card metric_cards columns activity
below loaded none = empty (import_button loaded.role)
below loaded (some batch) =
    overview (batch_card batch) (metric_cards batch loaded.metrics) (columns loaded.role)
      loaded.items (activity batch loaded.items) (links batch)

unfoldable pub content : Option WorkspaceData → Content
unfolding below
content none = empty none
content (some loaded) = below loaded loaded.batch
