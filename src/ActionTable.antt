-- ===== src/ActionTable.antt =====
-- web/src/components/ActionTable.tsx and web/src/components/AppShell.tsx: labels, data limitations, and
-- the navigation of the shell.
pub mod Rows
use profit_decision_engine.Prelude.{
  String, List, [], ◌∷◌, Option, none, some, not, ◌==◌, truthy, lookup, or_else, filter, map,
  if◌then◌else◌,
}
use profit_decision_engine.Access.Session.{SessionUser, workbench_path}

abbrev pub actions : List (String × String)
actions =
    ("clearance", "清仓")
    ∷ ("stop_loss", "止损")
    ∷ ("observe", "观察")
    ∷ ("invest", "加投")
    ∷ ("maintain", "维持")
    ∷ ("restock", "补货")
    ∷ ("prohibit_restock", "禁补")
    ∷ []

abbrev pub states : List (String × String)
states =
    ("pending_review", "待审核")
    ∷ ("pending_execution", "待执行")
    ∷ ("executed", "已执行")
    ∷ ("result_recorded", "已记录结果")
    ∷ ("closed", "已关闭")
    ∷ ("terminated", "已终止")
    ∷ []

abbrev relation_names : List (String × String)
relation_names =
    ("new_task", "本周新任务")
    ∷ ("same_action_continuation", "延续前序 · 未重建")
    ∷ ("action_change_pending", "动作变化 · 待主管确认")
    ∷ []

unfoldable pub relation_text : String → String
relation_text value = or_else (lookup value relation_names) value

abbrev review_names : List (String × String)
review_names = ("pending", "待审核") ∷ ("approved", "已通过") ∷ ("rejected", "已驳回") ∷ []

unfoldable pub review_text : String → String
review_text value = or_else (lookup value review_names) value

abbrev ai_names : List (String × String)
ai_names =
    ("generating", "生成中")
    ∷ ("generated", "已生成")
    ∷ ("failed", "生成失败")
    ∷ ("not_adopted", "内容未采用")
    ∷ ("not_configured", "模型服务未配置")
    ∷ []

unfoldable pub ai_text : String → String
ai_text value = or_else (lookup value ai_names) value

abbrev clearance_names : List (String × String)
clearance_names =
    ("pending_confirmation", "待主管确认") ∷ ("returned", "已退回待修正") ∷ ("confirmed", "已确认") ∷ []

unfoldable pub clearance_text : String → String
clearance_text value = or_else (lookup value clearance_names) value

abbrev quality_field_names : List (String × String)
quality_field_names =
    ("quality_return_rate_7d", "近 7 天品退率")
    ∷ ("inventory_days", "库存可售天数")
    ∷ ("launch_date", "上架日期")
    ∷ ("operating_profit_rate", "经营准利润率")
    ∷ ("net_sales_prev_month", "上月净销售额")
    ∷ []

unfoldable pub quality_field_text : String → String
quality_field_text value = or_else (lookup value quality_field_names) value

abbrev quality_state_names : List (String × String)
quality_state_names =
    ("not_verified", "未校验")
    ∷ ("insufficient", "数据不足")
    ∷ ("unavailable", "未提供")
    ∷ ("anomalous", "异常")
    ∷ ("no_recent_sales", "无近期销售")
    ∷ []

unfoldable pub quality_state_text : String → String
quality_state_text value = or_else (lookup value quality_state_names) value

unfoldable pub notification_text : Option String → Option String → String
notification_text none error = "尚未发送"
notification_text (some status) error =
    if status == "sent"
    then "钉钉已受理"
    else if status == "pending"
    then "待发送"
    else if status == "failed"
    then (if or_else error "" == "oa_not_configured" then "未配置 · 发送失败" else "发送失败")
    else "尚未发送"

-- `Track`: the label of the action, if any, and of the state.
unfoldable pub track_cells : Option String → String → Option String × String
track_cells none state = (none, or_else (lookup state states) state)
track_cells (some action) state = (
  if truthy action then some (or_else (lookup action actions) action) else none,
  or_else (lookup state states) state,
)

-- `DataLimitations`: the fields that are not valid, with their states.
unfoldable pub data_limitations_of : List (String × String) → List (String × String)
unfolding quality_field_text quality_state_text
data_limitations_of quality =
    map (λ entry. (quality_field_text entry.0, quality_state_text entry.1))
      (filter (λ entry. not (entry.1 == "valid")) quality)

-- `AppShell`: the links of the navigation; before the session is known, that of the operations.
abbrev workbench_link : Option SessionUser → String
workbench_link none = "/workbench/operations"
workbench_link (some user) = workbench_path user.role

unfoldable pub navigation : Option SessionUser → List (String × String)
navigation user =
    ("我的工作台", workbench_link user)
    ∷ ("数据批次", "/batches")
    ∷ ("行动中心", "/actions")
    ∷ ("历史追溯", "/history")
    ∷ []
