-- ===== src/BatchPages.antt =====
-- web/src/pages/BatchListPage.tsx and web/src/pages/BatchDetailPage.tsx: what they show of batches, when
-- they ask again, and the form for a new batch.
pub mod Laws
pub mod View
pub mod Promises
mod Examples
use profit_decision_engine.Prelude.{
  String, ℕ, zero, suc, ◌+◌, ◌-◌, ◌/◌, List, [], ◌∷◌, Option, none, some, Bool, true, false, not,
  ◌&&◌, ◌||◌, ◌==◌, ◌+++◌, truthy, lookup, or_else, filter, find, any, trim, leb, eqb, length,
  if◌then◌else◌,
}
use profit_decision_engine.Prelude.Query.{Params, get_or_empty, set, remove}
use profit_decision_engine.Batches.{
  BatchSummary, BatchStatus, received, processing, ready, failed, is_ready,
}
use profit_decision_engine.Schema.{
  ImportIssue, Severity, rejected, degraded, warning, BatchDetail, Snapshot,
}
use profit_decision_engine.Api.{Request, CreateBatchInput, create_batch}

-- `status === 'received' || status === 'processing'`
abbrev pub is_moving : BatchStatus → Bool
is_moving received = true
is_moving processing = true
is_moving _ = false

-- `refetchInterval` of the list and of a batch, in milliseconds; `none` is `false`.
unfoldable pub list_interval : Option (List BatchSummary) → Option ℕ
list_interval none = none
list_interval (some items) = if any (λ b. is_moving b.status) items then some 3000 else none

unfoldable pub batch_interval : Option BatchStatus → Option ℕ
batch_interval none = none
batch_interval (some status) = if is_moving status then some 2000 else none

-- `current` and `history`
unfoldable pub current : List BatchSummary → Option BatchSummary
current items = find (λ b. is_ready b.status) items

abbrev is_other : Option BatchSummary → BatchSummary → Bool
is_other none b = true
is_other (some c) b = not (b.id == c.id)

unfoldable pub history_of : List BatchSummary → List BatchSummary
unfolding current
history_of items = filter (is_other (current items)) items

-- The list page: the shown page of the listing and its search.
pub record BatchListPage : Type 0 where
  pub page : ℕ
  pub limit : ℕ
  pub draft_search : String
  pub search : String

unfoldable pub open_list : Params → BatchListPage
open_list query = record {
  page = 1;
  limit = 50;
  draft_search = get_or_empty "search" query;
  search = get_or_empty "search" query;
}

-- The submission of the search, with the parameters of the new address.
unfoldable pub submit_search : Params → BatchListPage → BatchListPage × Params
unfolding trim
submit_search params page =
    let value = trim page.draft_search in
    (
      record page { search = value; page = 1 },
      if truthy value then set "search" value params else remove "search" params,
    )

unfoldable pub choose_size : ℕ → BatchListPage → BatchListPage
choose_size limit page = record page { limit = limit; page = 1 }

-- `Math.max(1, Math.ceil(total / limit))`, for a limit of at least one
unfoldable pub list_pages : ℕ → ℕ → ℕ
list_pages total zero = 1
list_pages total (suc n) = let full = (total + n) / suc n in if leb 1 full then full else 1

-- The buttons below the list, disabled on the first and on the last page.
unfoldable pub turn_back : BatchListPage → BatchListPage
turn_back page = if eqb page.page 1 then page else record page { page = page.page - 1 }

unfoldable pub turn_on : ℕ → BatchListPage → BatchListPage
unfolding list_pages
turn_on total page =
    if eqb page.page (list_pages total page.limit)
    then page
    else record page { page = page.page + 1 }

-- The form for a new batch, and its mutation: whether it runs, and the message it failed with. A file
-- stands for its contents.
pub record NewBatch : Type 0 where
  pub file : Option String
  pub error : String
  pub is_pending : Bool
  pub failure : Option String

-- `submit`, given the other fields of the form. The button is disabled while the mutation runs, and
-- a form whose button is disabled is not submitted.
unfoldable pub submit_batch : (String → CreateBatchInput) → NewBatch → NewBatch × Option Request
submit_batch fields form = if form.is_pending then (form, none) else elim form.file [
  | none ↦ (record form { error = "请选择 XLSX 文件。" }, none)
  | some file ↦ (
    record form { error = ""; is_pending = true; failure = none },
    some (create_batch (fields file)),
  )
]

-- What the mutation is answered with: the identifier of the batch, or a message.
pub data Created : Type 0 where
  created refused : String → Created

-- The form after the answer, and the address that is assigned, if any.
unfoldable pub batch_answered : Created → NewBatch → NewBatch × Option String
batch_answered (created id) form = (record form { is_pending = false }, some ("/batches/" +++ id))
batch_answered (refused message) form =
    (record form { is_pending = false; failure = some message }, none)

abbrev pub submit_label : NewBatch → String
submit_label form = if form.is_pending then "正在上传…" else "上传并开始处理"

-- `errorText`
abbrev error_texts : List (String × String)
error_texts =
    ("invalid_complete_natural_month", "期间必须是完整自然月，且业务截止日不得早于期间结束日。")
    ∷ ("xlsx_file_required", "请选择有效的 .xlsx 文件。")
    ∷ ("forbidden", "当前角色只能查看批次，不能上传。")
    ∷ []

unfoldable pub error_text : Option String → String
error_text code = or_else (lookup (or_else code "") error_texts) "批次创建失败，请核对内容后重试。"

-- The notice of the form: its own error, or that of a failed mutation.
unfoldable pub form_alert : NewBatch → Option String
unfolding error_text
form_alert form =
    if truthy form.error
    then some form.error
    else elim form.failure [ none ↦ none | some message ↦ some (error_text (some message)) ]

-- `issues`: the issues of the chosen severity.
abbrev pub severity_text : Severity → String
severity_text rejected = "rejected"
severity_text degraded = "degraded"
severity_text warning = "warning"

unfoldable pub shown_issues : String → List ImportIssue → List ImportIssue
shown_issues severity issues =
    filter (λ issue. severity == "all" || severity_text issue.severity == severity) issues

-- `processSteps`
pub record ProcessStep : Type 0 where
  pub index : String
  pub label : String
  pub note : String
  pub done : Bool

abbrev is_processing : BatchStatus → Bool
is_processing processing = true
is_processing _ = false

abbrev process_step : String → String → String → Bool → ProcessStep
process_step index label note done = record {
  index = index;
  label = label;
  note = note;
  done = done;
}

unfoldable pub process_steps : BatchStatus → List ProcessStep
process_steps status =
    let read = is_ready status || is_processing status in
    process_step "01" "文件接收" "原始 XLSX 已内容寻址保存" true
    ∷ process_step "02" "字段校验" "身份与经营字段逐项定位" read
    ∷ process_step "03" "指标读取" "采用值与缺失状态被明确记录" read
    ∷ process_step "04" "快照冻结" "期间、口径和来源不可覆盖" (is_ready status)
    ∷ process_step "05" "固定规则" "规则结论独立于 AI 生成" (is_ready status)
    ∷ process_step "06" "清单就绪" "进入唯一行动清单继续闭环" (is_ready status)
    ∷ []

-- The link to the action list of a batch, shown once it is ready.
unfoldable pub actions_link : BatchSummary → Option String
actions_link batch =
    if is_ready batch.status then some ("/actions?batch_id=" +++ batch.id) else none

-- The notice about the number of valid items.
unfoldable pub size_fits : BatchSummary → Bool
size_fits batch = let n = or_else batch.valid_count 0 in leb 10 n && leb n 20
