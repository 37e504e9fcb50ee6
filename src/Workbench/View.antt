-- ===== src/Workbench/View.antt =====
-- What web/src/pages/WorkbenchPage.tsx shows: the heading, the batch, the figures, the overviews of the
-- two roles and the task table. Figures are texts, and their formats are those of the action table.
use profit_decision_engine.Prelude.{
  String, ℕ, List, [], ◌∷◌, ◌++◌, map, Option, none, some, Bool, true, false, ◌+++◌, eqb, take,
  lookup, or_else, truthy, if◌then◌else◌,
}
use profit_decision_engine.Prelude.Decimal.{to_decimal}
use profit_decision_engine.Schema.{
  ActionItem, Workbench, DataLimitation, ReviewStatus, pending, approved, rejected,
}
use profit_decision_engine.Workbench.{WorkbenchFilters, risks, recent_reviews}
use profit_decision_engine.ActionTable.Rows.{Formats}

abbrev limitation_fields : List (String × String)
limitation_fields =
    ("launch_date", "上架日期")
    ∷ ("quality_return_rate_7d", "近 7 天品退率")
    ∷ ("inventory_days", "库存可售天数")
    ∷ ("net_sales_prev_month", "上月净销售额")
    ∷ ("operating_profit_rate", "经营准利润率")
    ∷ []

abbrev limitation_states : List (String × String)
limitation_states =
    ("invalid", "字段无效")
    ∷ ("not_verified", "周期未校验")
    ∷ ("insufficient", "数据不足")
    ∷ ("unavailable", "未提供")
    ∷ []

abbrev pub action_labels : List (String × String)
action_labels =
    ("clearance", "清仓") ∷ ("stop_loss", "止损") ∷ ("observe", "观察") ∷ ("invest", "加投") ∷ []

abbrev inventory_labels : List (String × String)
inventory_labels = ("prohibit_restock", "禁止补货") ∷ ("restock", "补货") ∷ []

abbrev business_state_labels : List (String × String)
business_state_labels =
    ("pending_execution", "待执行")
    ∷ ("executed", "待补录结果")
    ∷ ("result_recorded", "已记录结果")
    ∷ ("closed", "已关闭")
    ∷ ("terminated", "已终止")
    ∷ []

-- The heading: overline, title, text, and the links beside it.
unfoldable pub heading : Bool → String × String × String × List (String × String)
heading is_supervisor = (
  (if is_supervisor then "Supervisor Workspace" else "Operations Workspace"),
  (if is_supervisor then "主管审核工作台" else "运营工作台"),
  (if is_supervisor then "聚焦待审核风险、清仓确认和协同异常，不在总览页批量拍板。" else "从当前批次进入本人经营动作、结果补录与清仓确认闭环。"),
  (if is_supervisor then [] else ("导入新批次", "/batches/new") ∷ []) ++ ("全部行动", "/actions") ∷ [],
)

abbrev period_of : List ActionItem → String
period_of [] = "批次清单已就绪，当前身份暂无匹配任务。"
period_of (first ∷ items) =
    first.period_start
    +++ (" 至 "
        +++ (first.period_end
            +++ (" · 截止 " +++ (first.business_cutoff_date +++ (" · " +++ first.rule_version)))))

-- `BatchContext`: the code, the period, and the link with its text.
unfoldable pub batch_context : Bool → Workbench → String × String × String × String
batch_context is_supervisor loaded = (
  loaded.latest_batch_code,
  period_of loaded.items,
  (if is_supervisor then "查看冻结批次" else "查看批次详情"),
  "/batches/" +++ loaded.latest_batch_id,
)

-- The figures: label, value, tone.
unfoldable pub stats : Bool → Workbench → List (String × ℕ × Option String)
stats is_supervisor loaded =
    if is_supervisor
    then ("待审核建议", loaded.pending_review_count, some "warn")
      ∷ ("待确认清仓", loaded.clearance_confirm_count, some "danger")
      ∷ ("钉钉发送失败", loaded.notification_failure_count, some "danger")
      ∷ ("动作变化/冲突", loaded.exception_count, none)
      ∷ []
    else ("待执行经营动作", loaded.pending_execution_count, some "warn")
      ∷ ("待补录结果", loaded.pending_result_count, none)
      ∷ ("待主管确认清仓", loaded.clearance_confirm_count, some "danger")
      ∷ ("钉钉发送失败", loaded.notification_failure_count, some "danger")
      ∷ []

-- `WorkbenchFilters`: the options of its selects, and the button that clears it.
abbrev pub action_options : List (String × String)
action_options = ("", "全部动作") ∷ action_labels

abbrev pub state_options : List (String × String)
state_options =
    ("", "全部经营状态")
    ∷ ("pending_execution", "待执行")
    ∷ ("executed", "待补录结果")
    ∷ ("result_recorded", "已记录结果")
    ∷ ("closed", "已关闭")
    ∷ []

abbrev pub cleared : WorkbenchFilters
cleared = record { search = ""; action = ""; business_state = "" }

-- `SupervisorOverview`: the text and the button on clearances, the count of failures with its tone,
-- and the risks by label.
pub record Overview : Type 0 where
  pub clearance_text : String
  pub clearance_button : String
  pub failures_text : String
  pub has_failures : Bool
  pub risk_cards : List (String × ℕ)

abbrev is_zero : ℕ → Bool
is_zero n = eqb n 0

unfoldable pub supervisor_overview : Workbench → Overview
unfolding to_decimal risks
supervisor_overview loaded =
    let count = loaded.clearance_confirm_count in
    let failures = loaded.notification_failure_count in
    record {
      clearance_text =
          if is_zero count
          then "当前没有待主管确认的清仓完成时间。"
          else "有 " +++ (to_decimal count +++ " 条运营提交等待逐条复核。");
      clearance_button = if is_zero count then "查看清仓任务" else "逐条确认";
      failures_text = to_decimal failures +++ " 条协同异常";
      has_failures = if is_zero failures then false else true;
      risk_cards =
          map (λ risk. (or_else (lookup risk.0 action_labels) "", risk.1)) (risks loaded.items);
    }

-- The notice on failed notifications, and the line below it.
unfoldable pub failure_notice : Workbench → String × String
unfolding to_decimal
failure_notice loaded = (
  if is_zero loaded.notification_failure_count
      then "当前批次没有钉钉发送异常。"
      else "当前批次有 " +++ (to_decimal loaded.notification_failure_count +++ " 条钉钉通知发送失败，业务状态未被自动推进。"),
  "动作变化 " +++ (to_decimal loaded.exception_count +++ " 条；并发冲突只追加审计，不覆盖已成功事实。"),
)

abbrev review_result : ReviewStatus → String
review_result approved = "整体通过"
review_result _ = "已驳回"

-- `RecentReviews`: object, result and link of each.
unfoldable pub recent_rows : List ActionItem → List (String × String × String)
unfolding recent_reviews
recent_rows items =
    map
      (λ item. (
        item.spu_id +++ (" · " +++ item.name),
        review_result item.review_status +++ (" · " +++ item.operator_ref),
        "/suggestions/" +++ item.link_id,
      ))
      (recent_reviews items)

-- The first three limitations of the data.
unfoldable pub limitations : List DataLimitation → List (String × String)
unfolding to_decimal
limitations items =
    map
      (λ item. (
        or_else (lookup item.field limitation_fields) item.field,
        or_else (lookup item.status limitation_states) item.status
            +++ (" · " +++ to_decimal item.count),
      ))
      (take 3 items)

abbrev review_label : ReviewStatus → String
review_label approved = "已通过"
review_label pending = "待审核"
review_label rejected = "已驳回"

-- `OperationsTaskTable`: the cells of a row and its link.
module _ (formats : Formats) where
  open formats use {whole, hundredfold, local_time}

  abbrev money : Option String → String
  money none = "数据不足"
  money (some value) = "¥" +++ whole value

  abbrev percent : Option String → String
  percent none = "数据不足"
  percent (some value) = hundredfold value +++ "%"

  abbrev time_or_dash : Option String → String
  time_or_dash none = "—"
  time_or_dash (some at) = if truthy at then local_time at else "—"

  unfoldable pub task_row : ActionItem → List String × String
  task_row item = (
    item.name
        ∷ (item.spu_id +++ (" · " +++ item.store))
        ∷ or_else (lookup (or_else item.effective_business_action "") action_labels) "依据不足"
        ∷ or_else (lookup (or_else item.effective_inventory_action "") inventory_labels) "无协同"
        ∷ item.trigger_rule
        ∷ ("销售 "
            +++ (money item.net_sales_prev_month
                +++ (" · 利润 " +++ percent item.operating_profit_rate)))
        ∷ item.operator_ref
        ∷ review_label item.review_status
        ∷ or_else (lookup item.business_state business_state_labels) item.business_state
        ∷ ("产生 " +++ local_time item.task_created_at)
        ∷ ("关联 " +++ local_time item.linked_at)
        ∷ ("执行 " +++ time_or_dash item.business_executed_at)
        ∷ [],
    "/suggestions/" +++ item.link_id,
  )
