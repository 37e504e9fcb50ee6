-- ===== src/BatchPages/View.antt =====
-- What web/src/pages/BatchListPage.tsx and web/src/pages/BatchDetailPage.tsx show of batches. A figure
-- is the text of its number; `Formats` are those of the browser.
use profit_decision_engine.Prelude.{
  String, ℕ, ◌+◌, List, [], ◌∷◌, ◌++◌, map, Option, none, some, Bool, true, false, ◌+++◌, eqb,
  length, lookup, or_else, truthy, if◌then◌else◌,
}
use profit_decision_engine.Prelude.Decimal.{to_decimal}
use profit_decision_engine.Json.{Fields, end}
use profit_decision_engine.Batches.{
  BatchSummary, BatchStatus, received, processing, ready, failed, is_ready,
}
use profit_decision_engine.Schema.{ImportIssue, BatchDetail, Snapshot, Decision}
use profit_decision_engine.BatchPages.{is_moving, size_fits, severity_text}

pub record Formats : Type 0 where
  pub amount : String → String
  pub hundredfold : String → String
  pub local_time : String → String
  pub stringify : Fields → String

-- `statusText` and `batchStatus`, which have the same texts
abbrev pub status_text : BatchStatus → String
status_text received = "已接收"
status_text processing = "处理中"
status_text ready = "已完成"
status_text failed = "失败"

abbrev pub count_text : Option ℕ → String
unfolding to_decimal
count_text none = "—"
count_text (some n) = to_decimal n

abbrev period_text : BatchSummary → String
period_text batch = batch.period_start +++ (" 至 " +++ batch.period_end)

-- `CurrentBatch`: title, texts below it, context, figures and link.
pub record CurrentBatch : Type 0 where
  pub title : String
  pub subtitle : String
  pub context : List (String × String)
  pub figures : List (String × String)
  pub path : String

abbrev pub steps : List String
steps = "文件已接收" ∷ "字段已校验" ∷ "指标已冻结" ∷ "规则已完成" ∷ []

-- The lines of a failure code
abbrev failure_line : Option String → List String
failure_line none = []
failure_line (some code) = if truthy code then code ∷ [] else []

module _ (formats : Formats) where
  open formats use {amount, hundredfold, local_time, stringify}

  unfoldable pub current_batch : BatchSummary → CurrentBatch
  unfolding count_text
  current_batch batch = record {
    title = batch.code;
    subtitle = batch.business_unit +++ (" · " +++ period_text batch);
    context =
        ("业务截止日", batch.business_cutoff_date)
        ∷ ("规则版本", or_else batch.rule_version "—")
        ∷ ("源文件", batch.source_file_name)
        ∷ ("提交", batch.created_by +++ (" · " +++ local_time batch.created_at))
        ∷ [];
    figures =
        ("有效 SPU", count_text batch.valid_count)
        ∷ ("拒绝记录", count_text batch.rejected_count)
        ∷ ("降级处理", count_text batch.degraded_count)
        ∷ ("批次警告", count_text batch.warning_count)
        ∷ [];
    path = "/batches/" +++ batch.id;
  }

  -- `BatchTable`: the cells of a row.
  unfoldable pub batch_row : BatchSummary → List (List String)
  unfolding count_text
  batch_row batch =
      (batch.code ∷ batch.business_unit ∷ [])
      ∷ (period_text batch ∷ ("截止 " +++ batch.business_cutoff_date) ∷ [])
      ∷ (batch.source_file_name ∷ [])
      ∷ (status_text batch.status ∷ failure_line batch.failure_code)
      ∷ ((count_text batch.valid_count
            +++ (" / "
                +++ (count_text batch.rejected_count
                    +++ (" / " +++ count_text batch.degraded_count))))
          ∷ [])
      ∷ (local_time batch.created_at ∷ [])
      ∷ []

  -- The head of a batch's page: the declaration, by label.
  unfoldable pub declaration : BatchSummary → List (String × String)
  declaration batch =
      ("事业部", batch.business_unit)
      ∷ ("数据期间", period_text batch)
      ∷ ("业务截止日", batch.business_cutoff_date)
      ∷ ("源文件", batch.source_file_name)
      ∷ ("提交人 / 时间", batch.created_by +++ (" · " +++ local_time batch.created_at))
      ∷ ("规则版本", or_else batch.rule_version "待生成")
      ∷ []

  number_or_unknown : Option String → String
  number_or_unknown none = "未知"
  number_or_unknown (some value) = amount value

  percent_or_unknown : Option String → String
  percent_or_unknown none = "未知"
  percent_or_unknown (some value) = hundredfold value +++ "%"

  abbrev action_texts : List (String × String)
  action_texts =
      ("clearance", "清仓") ∷ ("stop_loss", "止损") ∷ ("maintain", "维持") ∷ ("invest", "加大投入") ∷ []

  abbrev action_or_lacking : Option String → String
  action_or_lacking none = "依据不足"
  action_or_lacking (some action) =
      if truthy action then or_else (lookup action action_texts) action else "依据不足"

  -- The conclusion and the rule of a snapshot.
  abbrev conclusion : Option Decision → List String
  conclusion none = "依据不足" ∷ "—" ∷ []
  conclusion (some decision) =
      action_or_lacking decision.business_action ∷ decision.trigger_rule ∷ []

  unfoldable pub snapshot_row : Snapshot → List (List String)
  unfolding number_or_unknown percent_or_unknown
  snapshot_row snapshot =
      (snapshot.name ∷ snapshot.spu_id ∷ [])
      ∷ (snapshot.store ∷ (snapshot.platform +++ (" · " +++ snapshot.operator_ref)) ∷ [])
      ∷ (number_or_unknown snapshot.net_sales_prev_month ∷ [])
      ∷ (percent_or_unknown snapshot.operating_profit_rate ∷ [])
      ∷ ((percent_or_unknown snapshot.quality_return_rate_7d
            +++ (" / " +++ number_or_unknown snapshot.inventory_days))
          ∷ [])
      ∷ conclusion snapshot.decision
      ∷ []

  abbrev evidence_of : Option Decision → Fields
  evidence_of none = end
  evidence_of (some decision) = decision.evidence

  -- `EvidenceDrawer`: the source, the quality, the raw values, an empty one as such, and the evidence.
  unfoldable pub evidence_drawer :
      Snapshot → String × List (String × String) × List (String × String) × String
  unfolding to_decimal
  evidence_drawer snapshot = (
    snapshot.spu_id
        +++ (" · "
            +++ (snapshot.source_sheet +++ (" 第 " +++ (to_decimal snapshot.source_row +++ " 行")))),
    snapshot.quality,
    map (λ entry. (entry.0, if truthy entry.1 then entry.1 else "空值")) snapshot.raw_values,
    stringify (evidence_of snapshot.decision),
  )

-- The next step: title, text, and whether it leads to the actions.
unfoldable pub next_step : BatchStatus → String × String × Bool
next_step status = (
  (if is_ready status then "行动清单已生成" else "等待规则处理完成"),
  (if is_ready status then "后续审核与执行会引用这里冻结的事实，原批次保持只读。" else "页面会自动刷新当前处理阶段。"),
  is_ready status,
)

abbrev is_failed : BatchStatus → Bool
is_failed failed = true
is_failed _ = false

-- The banner while the batch is moving, and the alert of a failure.
unfoldable pub notices : BatchSummary → List String
notices batch =
    (if is_moving batch.status then "后台正在解析并固化经营事实，本页会自动刷新。" ∷ [] else [])
    ++ (if is_failed batch.status
        then ("处理失败："
            +++ (or_else batch.failure_code "unknown_failure" +++ "。原始文件已保留，可据错误修正后重新导入。"))
          ∷ []
        else [])

unfoldable pub figures : BatchDetail → List (String × String)
unfolding to_decimal count_text
figures detail =
    ("识别明细", to_decimal (length detail.snapshots + or_else detail.summary.rejected_count 0))
    ∷ ("身份有效 SPU", count_text detail.summary.valid_count)
    ∷ ("拒绝行", count_text detail.summary.rejected_count)
    ∷ ("字段级降级", count_text detail.summary.degraded_count)
    ∷ ("批次警告", count_text detail.summary.warning_count)
    ∷ []

unfoldable pub size_notice : BatchSummary → String
unfolding size_fits
size_notice batch =
    (if size_fits batch then "当前有效 SPU 数量符合 10—20 个首轮验收规模。" else "SPU 数量不属于首轮验收规模，但不会仅因数量阻断合法批次。")
    +++ " 缺失值均保持未知，不以 0 代填。"

-- `IssueTable`: the cells of a row.
abbrev row_part : Option ℕ → String
unfolding to_decimal
row_part none = ""
row_part (some n) = if eqb n 0 then "" else " · 第 " +++ (to_decimal n +++ " 行")

abbrev or_text : String → String → String
or_text text fallback = if truthy text then text else fallback

unfoldable pub issue_row : ImportIssue → List (List String)
unfolding row_part
issue_row issue =
    (severity_text issue.severity ∷ [])
    ∷ ((or_text issue.source_sheet "工作簿" +++ row_part issue.source_row)
        ∷ or_else issue.spu_id "全局"
        ∷ [])
    ∷ (issue.field ∷ or_text (or_else issue.raw_value "") "空值" ∷ [])
    ∷ (issue.reason ∷ [])
    ∷ (issue.impact ∷ issue.resolution ∷ [])
    ∷ []
