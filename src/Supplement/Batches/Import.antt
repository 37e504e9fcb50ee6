-- ===== src/Supplement/Batches/Import.antt =====
-- pages/BatchImportPage.tsx of the supplementary frontend: the form, its confirmation and the upload.
-- Days are given as their texts (`format("YYYY-MM-DD")`); a file is its name.
use profit_decision_engine.Prelude.{
  String, List, [], ◌∷◌, Option, none, some, Bool, true, false, not, ◌&&◌, ◌+++◌, truthy, or_else,
  is_some, if◌then◌else◌,
}

pub record FormValues : Type 0 where
  pub business_unit : String
  pub period_start : String
  pub period_end : String
  pub business_date : String

-- The fields of the form as they stand, some of them empty.
pub record Fields : Type 0 where
  pub business_unit : String
  pub period : Option (String × String)
  pub business_date : Option String

abbrev pub initial_fields : Fields
initial_fields = record { business_unit = "玩具事业部"; period = none; business_date = none }

complete : String → Option (String × String) → Option String → Option FormValues
complete unit none date = none
complete unit (some period) none = none
complete unit (some (first, last)) (some date) =
    if truthy unit
    then some (record {
      business_unit = unit;
      period_start = first;
      period_end = last;
      business_date = date;
    })
    else none

-- The values that `onFinish` is called with: every field is required.
unfoldable pub finished : Fields → Option FormValues
unfolding complete
finished fields = complete fields.business_unit fields.period fields.business_date

-- An entry of `FormData`
pub data Entry : Type 0 where
  text : String → Entry
  upload : String → Entry

unfoldable pub form_data : FormValues → String → List (String × Entry)
form_data values file =
    ("business_unit", text values.business_unit)
    ∷ ("period_start", text values.period_start)
    ∷ ("period_end", text values.period_end)
    ∷ ("business_date", text values.business_date)
    ∷ ("file", upload file)
    ∷ []

pub record ImportPage : Type 0 where
  pub file : Option String
  pub confirm_values : Option FormValues
  pub error : String
  pub is_pending : Bool

abbrev pub initial : ImportPage
initial = record { file = none; confirm_values = none; error = ""; is_pending = false }

-- What the page does besides changing its state: the POST to /batches, or a message of its own, and
-- where it goes.
pub data Effect : Type 0 where
  nothing : Effect
  post : List (String × Entry) → Effect
  go : Option String → String → Effect

-- How an upload ends: the answer, or the message of an error, which may have none.
pub data Outcome : Type 0 where
  imported : Bool → String → Outcome
  failed : Option String → Outcome

pub data Event : Type 0 where
  selected : String → Event
  removed : Event
  submitted : Fields → Event
  returned : Event
  confirmed : Event
  answered : Outcome → Event

-- `onFinish`, for a form that passes
abbrev pub ask : Option FormValues → ImportPage → ImportPage
ask none page = page
ask (some values) page = record page { error = ""; confirm_values = some values }

-- `mutationFn`; without a file it ends at once in an error.
unfoldable pub run_import : Option String → Option FormValues → ImportPage → ImportPage × Effect
unfolding form_data
run_import file none page = (page, nothing)
run_import none (some values) page = (record page { error = "请选择 XLSX 经营表。" }, nothing)
run_import (some file) (some values) page =
    (record page { is_pending = true }, post (form_data values file))

abbrev notice : Bool → Option String
notice idempotent = if idempotent then some "相同数据已存在，已返回原批次。" else none

-- `onOk`, which a loading button does not call
unfoldable pub confirm : Bool → ImportPage → ImportPage × Effect
unfolding run_import
confirm true page = (page, nothing)
confirm false page = run_import page.file page.confirm_values page

unfoldable pub step : Event → ImportPage → ImportPage × Effect
unfolding finished confirm
step (selected name) page = (record page { file = some name }, nothing)
step removed page = (record page { file = none }, nothing)
step (submitted fields) page =
    if is_some page.file && not page.is_pending
    then (ask (finished fields) page, nothing)
    else (page, nothing)
step returned page = (record page { confirm_values = none }, nothing)
step confirmed page = confirm page.is_pending page
step (answered (imported idempotent batch_id)) page =
    (record page { is_pending = false }, go (notice idempotent) ("/batches/" +++ batch_id))
step (answered (failed message)) page =
    (record page { is_pending = false; error = or_else message "导入失败" }, nothing)

unfoldable pub after : List Event → ImportPage → ImportPage
unfolding step
after [] page = page
after (event ∷ events) page = after events (step event page).0

-- The lines of the dialog that asks for the confirmation.
unfoldable pub confirm_lines : FormValues → Option String → List String
confirm_lines values file =
    ("事业部：" +++ values.business_unit)
    ∷ ("数据期间：" +++ (values.period_start +++ (" 至 " +++ values.period_end)))
    ∷ ("业务截止日：" +++ values.business_date)
    ∷ ("文件：" +++ or_else file "")
    ∷ []

-- Whether the button of the form can be pressed, the line on the selected file, the error's, and the
-- current one of the four steps.
pub record Shown : Type 0 where
  pub can_submit : Bool
  pub file_line : Option String
  pub error_line : Option String
  pub second_step : Bool

abbrev file_line_of : Option String → Option String
file_line_of none = none
file_line_of (some name) = some ("已选择 " +++ name)

unfoldable pub shown : ImportPage → Shown
shown page = record {
  can_submit = is_some page.file && not page.is_pending;
  file_line = file_line_of page.file;
  error_line = if truthy page.error then some page.error else none;
  second_step = page.is_pending;
}

abbrev pub steps : List String
steps = "上传并固化批次" ∷ "校验身份与字段" ∷ "计算指标与固定规则" ∷ "发布唯一行动清单" ∷ []
