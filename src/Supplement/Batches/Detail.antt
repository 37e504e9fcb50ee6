-- ===== src/Supplement/Batches/Detail.antt =====
-- pages/BatchDetailPage.tsx of the supplementary frontend. `lower` is `toLowerCase`, `encode` is
-- `encodeURIComponent`, `local_time` is `toLocaleString`.
use profit_decision_engine.Prelude.{
  String, ℕ, List, [], ◌∷◌, ◌++◌, Option, none, some, Bool, true, not, ◌&&◌, ◌||◌, ◌==◌, ◌+++◌,
  filter, length, elem, join, truthy, trim, includes, or_else, if◌then◌else◌,
}
use profit_decision_engine.Prelude.Decimal.{to_decimal}
use profit_decision_engine.Supplement.Data.{
  Batch, Decision, ImportIssue, Snapshot, Severity, rejected, degraded, warning,
}
use profit_decision_engine.Supplement.StatusTag.{status_tag}

-- `BatchDetail`, the answer for a batch
pub record BatchDetail : Type 0 where
  pub batch : Batch
  pub issues : List ImportIssue
  pub snapshots : List Snapshot
  pub decisions : List Decision

abbrev in_progress : String → Bool
in_progress status = elem status ("received" ∷ "validating" ∷ "rules_processing" ∷ [])

abbrev status_of : Option BatchDetail → String
status_of none = ""
status_of (some detail) = detail.batch.status

-- `refetchInterval` in milliseconds, `none` for false
unfoldable pub refetch_interval : Option BatchDetail → Option ℕ
refetch_interval loaded = if in_progress (status_of loaded) then some 1500 else none

-- The header: title, description, the status tag and where the buttons lead.
pub record Header : Type 0 where
  pub title : String
  pub description : String
  pub tag : String × String
  pub back_path : String
  pub trace_path : String

unfoldable pub header : (String → String) → Batch → Header
unfolding status_tag
header encode batch = record {
  title = batch.business_unit;
  description =
      "批次 "
      +++ (batch.batch_id +++ (" · " +++ (batch.period_start +++ (" 至 " +++ batch.period_end))));
  tag = status_tag batch.status;
  back_path = "/batches";
  trace_path = "/trace?batch_id=" +++ encode batch.batch_id;
}

-- The alerts above the figures: type, message, description.
unfoldable pub alerts : Batch → List (String × String × Option String)
alerts batch =
    (if batch.status == "failed" then ("error", "批次处理失败", batch.error_message) ∷ [] else [])
    ++ (if in_progress batch.status
        then ("info", "系统正在校验数据并运行固定规则", some "本页会自动刷新；清单只会发布一次。") ∷ []
        else [])

unfoldable pub metrics : Batch → List (String × ℕ × String)
metrics batch =
    ("有效 SPU", batch.valid_row_count, "已进入指标与规则处理")
    ∷ ("拒绝行", batch.rejected_row_count, "身份缺失或批次内重复")
    ∷ ("降级字段", batch.degraded_field_count, "只停止依赖该字段的判断")
    ∷ ("普通警告", batch.warning_count, "保留质量标记并继续处理")
    ∷ []

abbrev first_rule_version : List Decision → Option String
first_rule_version [] = none
first_rule_version (decision ∷ rest) = decision.rule_version

unfoldable pub descriptions : (String → String) → Batch → List Decision → List (String × String)
descriptions local_time batch decisions =
    ("业务截止日", batch.business_date)
    ∷ ("源文件", batch.source_name)
    ∷ ("导入人", batch.created_by)
    ∷ ("建立时间", local_time batch.created_at)
    ∷ ("固定规则版本", or_else (first_rule_version decisions) "等待规则固化")
    ∷ []

-- The filters of the issues.
pub record Quality : Type 0 where
  pub level : Option String
  pub keyword : String

abbrev pub clear : Quality → Quality
clear quality = record { level = none; keyword = "" }

abbrev pub severity_text : Severity → String
severity_text rejected = "rejected"
severity_text degraded = "degraded"
severity_text warning = "warning"

abbrev at_level : Option String → Severity → Bool
at_level none severity = true
at_level (some level) severity = not (truthy level) || severity_text severity == level

abbrev issue_text : ImportIssue → String
issue_text item = item.field +++ (item.original_value +++ item.message)

unfoldable pub shows : (String → String) → Quality → ImportIssue → Bool
unfolding trim
shows lower quality item =
    at_level quality.level item.severity
    && (not (truthy quality.keyword)
        || includes (lower (issue_text item)) (lower (trim quality.keyword)))

-- `visibleIssues`, and the line that counts them
unfoldable pub visible_issues : (String → String) → Quality → List ImportIssue → List ImportIssue
unfolding shows
visible_issues lower quality issues = filter (shows lower quality) issues

unfoldable pub count_text : (String → String) → Quality → List ImportIssue → String
unfolding visible_issues to_decimal
count_text lower quality issues =
    "当前显示 "
    +++ (to_decimal (length (visible_issues lower quality issues))
        +++ (" / " +++ (to_decimal (length issues) +++ " 条质量记录")))

abbrev pub level_options : List (String × String)
level_options = ("rejected", "拒绝行") ∷ ("degraded", "降级字段") ∷ ("warning", "普通警告") ∷ []

-- The labels of the tabs.
unfoldable pub tab_labels : BatchDetail → List String
unfolding to_decimal
tab_labels detail =
    ("校验与质量 " +++ to_decimal (length detail.issues))
    ∷ ("指标快照 " +++ to_decimal (length detail.snapshots))
    ∷ ("固定规则 " +++ to_decimal (length detail.decisions))
    ∷ ("行动清单 " +++ to_decimal (length detail.decisions))
    ∷ []

-- The columns of the four tables, with the text of a row.
unfoldable pub issue_columns : List (String × (ImportIssue → String))
unfolding status_tag to_decimal
issue_columns =
    ("级别", λ item. (status_tag (severity_text item.severity)).1)
    ∷ ("源行", λ item. to_decimal item.source_row)
    ∷ ("字段", λ item. item.field)
    ∷ ("原值", λ item. item.original_value)
    ∷ ("原因", λ item. item.message)
    ∷ ("是否继续", λ item. if item.continues_processing then "是" else "否")
    ∷ []

abbrev text_of : Option String → String
text_of value = or_else value ""

unfoldable pub snapshot_columns : List (String × (Snapshot → String))
snapshot_columns =
    ("SPU", λ item. item.spu_name +++ item.spu_id)
    ∷ ("店铺", λ item. item.store)
    ∷ ("平台", λ item. item.platform)
    ∷ ("责任运营", λ item. item.operator_ref)
    ∷ ("净销售额", λ item. text_of item.net_sales)
    ∷ ("经营准利润率", λ item. text_of item.profit_rate)
    ∷ ("7 日品退率", λ item. text_of item.return_rate_7d)
    ∷ ("库存可售天数", λ item. text_of item.inventory_days)
    ∷ []

abbrev or_dash : String → String
or_dash text = if truthy text then text else "—"

unfoldable pub rule_columns : List (String × (Decision → String))
unfolding status_tag
rule_columns =
    ("SPU", λ item. item.spu_name)
    ∷ ("命中规则", λ item. or_dash (join "、" (or_else item.triggered_rules [])))
    ∷ ("规则版本", λ item. text_of item.rule_version)
    ∷ ("经营动作", λ item. (status_tag (text_of item.main_action)).1)
    ∷ ("库存动作", λ item. (status_tag item.replenishment_action).1)
    ∷ []

abbrev awaited : String → String
awaited state = if state == "pending" then "awaiting_review" else state

unfoldable pub action_columns : List (String × (Decision → String))
unfolding status_tag
action_columns =
    ("SPU", λ item. if truthy item.spu_name then item.spu_name else item.spu_id)
    ∷ ("责任运营", λ item. text_of item.operator_ref)
    ∷ ("经营动作", λ item. (status_tag (text_of item.main_action)).1)
    ∷ ("审核", λ item. (status_tag (awaited (text_of item.review_state))).1)
    ∷ ("进入", λ item. "查看建议")
    ∷ []
