-- ===== src/Supplement/StatusTag.antt =====
-- components/StatusTag.tsx: the label and the color of a status.
use profit_decision_engine.Prelude.{String, List, [], ◌∷◌, lookup, or_else}

abbrev pub labels : List (String × String)
labels =
    ("received", "已接收")
    ∷ ("validating", "校验中")
    ∷ ("rules_processing", "规则处理中")
    ∷ ("ready", "已完成")
    ∷ ("failed", "处理失败")
    ∷ ("pending", "待处理")
    ∷ ("awaiting_review", "待审核")
    ∷ ("approved", "已通过")
    ∷ ("rejected", "已驳回")
    ∷ ("executed", "已执行")
    ∷ ("result_recorded", "已记录结果")
    ∷ ("closed", "已关闭")
    ∷ ("clearance", "清仓")
    ∷ ("stop_loss", "止损")
    ∷ ("observe", "观察")
    ∷ ("invest", "加投")
    ∷ ("maintain", "维持")
    ∷ ("replenish", "补货")
    ∷ ("forbid", "禁止补货")
    ∷ ("no_replenishment", "不补货")
    ∷ ("not_generated", "不生成")
    ∷ ("undetermined", "无法判定")
    ∷ ("large_hit", "大爆品")
    ∷ ("small_hit", "小爆品")
    ∷ ("normal", "普通品")
    ∷ ("new", "新品")
    ∷ ("eliminated", "淘汰品")
    ∷ ("data_error", "数据异常")
    ∷ []

abbrev pub colors : List (String × String)
colors =
    ("ready", "success")
    ∷ ("approved", "success")
    ∷ ("executed", "success")
    ∷ ("result_recorded", "success")
    ∷ ("failed", "error")
    ∷ ("rejected", "error")
    ∷ ("clearance", "error")
    ∷ ("stop_loss", "volcano")
    ∷ ("forbid", "error")
    ∷ ("pending", "processing")
    ∷ ("awaiting_review", "processing")
    ∷ ("validating", "processing")
    ∷ ("rules_processing", "processing")
    ∷ ("observe", "warning")
    ∷ ("replenish", "cyan")
    ∷ ("invest", "blue")
    ∷ ("maintain", "default")
    ∷ ("large_hit", "blue")
    ∷ ("small_hit", "geekblue")
    ∷ ("new", "cyan")
    ∷ ("eliminated", "volcano")
    ∷ ("data_error", "error")
    ∷ []

-- The color and the label that `StatusTag` shows.
unfoldable pub status_tag : String → String × String
status_tag value = (or_else (lookup value colors) "default", or_else (lookup value labels) value)
