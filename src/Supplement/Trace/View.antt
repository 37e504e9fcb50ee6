-- ===== src/Supplement/Trace/View.antt =====
-- The state of TracePage.tsx, its rows and what it shows of them. `lower` is `toLowerCase`, `encode`
-- is `encodeURIComponent`, `local_time` is `toLocaleString`.
use profit_decision_engine.Prelude.{
  String, ℕ, List, [], ◌∷◌, ◌++◌, map, Option, none, some, Bool, true, false, not, ◌&&◌, ◌||◌, ◌==◌,
  ◌+++◌, filter, truthy, includes, or_else, slice_to, lookup, if◌then◌else◌,
}
use profit_decision_engine.Prelude.Query.{Params, get_or_empty}
use profit_decision_engine.Supplement.Data.{TraceEvent}
use profit_decision_engine.Supplement.StatusTag.{status_tag}
use profit_decision_engine.Supplement.Options.{unique_options}
use profit_decision_engine.Supplement.Texts.{fits, in_range}

-- `eventLabels`
abbrev pub event_labels : List (String × String)
event_labels =
    ("review", "主管审核")
    ∷ ("reviewed", "主管审核")
    ∷ ("review_approve", "主管通过")
    ∷ ("review_reject", "主管驳回")
    ∷ ("execution", "动作执行")
    ∷ ("executed", "动作执行")
    ∷ ("action_executed", "动作执行")
    ∷ ("result_recorded", "结果回填")
    ∷ ("action_result_recorded", "结果回填")
    ∷ ("procurement_result", "采购结果回填")
    ∷ ("decision_created", "建议生成")
    ∷ []

abbrev pub event_label : String → String
event_label event_type = or_else (lookup event_type event_labels) event_type

pub record TracePage : Type 0 where
  pub decision_id : String
  pub batch_id : String
  pub spu_id : String
  pub action : Option String
  pub state : Option String
  pub actor : String
  pub date_range : Option (String × String)
  pub event_type : Option String
  pub page_size : ℕ

-- The page as its address opens it.
unfoldable pub opened : Params → TracePage
opened params = record {
  decision_id = get_or_empty "decision_id" params;
  batch_id = get_or_empty "batch_id" params;
  spu_id = "";
  action = none;
  state = none;
  actor = "";
  date_range = none;
  event_type = none;
  page_size = 20;
}

unfoldable pub request_path : (String → String) → TracePage → String
request_path encode page =
    "/trace"
    +++ (if truthy page.decision_id then "?decision_id=" +++ encode page.decision_id else "")

-- What the range picker sets: both days, or no range.
unfoldable pub picked : Option String → Option String → Option (String × String)
picked (some first) (some last) = some (first, last)
picked _ _ = none

-- `清除筛选`
unfoldable pub clear : TracePage → TracePage
clear page = record page {
  batch_id = "";
  spu_id = "";
  action = none;
  state = none;
  actor = "";
  date_range = none;
  event_type = none;
}

abbrev fits_state : Option String → TraceEvent → Bool
fits_state none item = true
fits_state (some wanted) item =
    not (truthy wanted) || (item.to_state == wanted || item.from_state == wanted)

abbrev pub day_of : TraceEvent → String
day_of item = slice_to 10 item.occurred_at

module _ (lower : String → String) where
  -- `!wanted || value.toLowerCase().includes(wanted.toLowerCase())`
  abbrev contains : String → String → Bool
  contains wanted value = not (truthy wanted) || includes (lower value) (lower wanted)

  unfoldable pub passes : TracePage → TraceEvent → Bool
  passes page item =
      contains page.batch_id item.batch_id
      && (contains page.spu_id item.spu_id
          && (fits page.action item.action
              && (fits_state page.state item
                  && (contains page.actor item.actor_ref
                      && (in_range page.date_range (day_of item)
                          && fits page.event_type (some item.event_type))))))

  unfoldable pub rows : TracePage → List TraceEvent → List TraceEvent
  unfolding passes
  rows page source = filter (passes page) source

-- The texts for the role that the answer names: description, message and description of the notice.
abbrev is_procurement : Option String → Bool
is_procurement none = false
is_procurement (some role) = role == "procurement"

unfoldable pub scope_texts : Option String → String × String × String
scope_texts role =
    if is_procurement role
    then ("追踪本人采购动作与结果，定位原批次和 SPU；仅显示完成采购任务所需信息。", "当前为采购计划授权视图", "仅返回本人采购任务所需事件字段；追溯用途不会扩大经营数据权限。")
    else (
      "从审核、分轨执行与结果反向定位原批次、SPU、规则版本和操作人；历史快照不可覆盖。", "当前为运营主管授权视图",
      "当前可查看审核、经营与采购分轨事件；页面仅展示当前角色有权读取的批次和对象。",
    )

-- The options of the three selects: value and label.
abbrev same_label : String → String × String
same_label value = (value, value)

states_of : List TraceEvent → List (Option String)
states_of [] = []
states_of (item ∷ items) = some item.from_state ∷ some item.to_state ∷ states_of items

unfoldable pub selects : List TraceEvent → List (String × List (String × String))
unfolding unique_options states_of
selects source =
    ("经营 / 库存动作", map same_label (unique_options (map (λ item. item.action) source)))
    ∷ ("状态", map same_label (unique_options (states_of source)))
    ∷ (
      "事件类型",
      map (λ value. (value, event_label value))
          (unique_options (map (λ item. some item.event_type) source)),
    )
    ∷ []

-- The locked decision, if any.
abbrev pub lock_text : TracePage → Option String
lock_text page = if truthy page.decision_id then some ("已锁定建议 " +++ page.decision_id) else none

abbrev text_or_dash : Option String → String
text_or_dash none = "—"
text_or_dash (some text) = if truthy text then text else "—"

abbrev tag_or_dash : Option String → String
unfolding status_tag
tag_or_dash none = "—"
tag_or_dash (some value) = if truthy value then (status_tag value).1 else "—"

-- The columns of the table, with the cell of an event.
unfoldable pub columns : (String → String) → Option String → List (String × (TraceEvent → String))
unfolding status_tag
columns local_time role =
    ("发生时间", λ item. local_time item.occurred_at)
      ∷ ("事件", λ item. event_label item.event_type)
      ∷ ("状态变化", λ item. (status_tag item.from_state).1 +++ ("→" +++ (status_tag item.to_state).1))
      ∷ ("操作人", λ item. item.actor_ref)
      ∷ (if is_procurement role then [] else ("规则版本", λ item. or_else item.rule_version "") ∷ [])
    ++ (("备注", λ item. text_or_dash item.note)
        ∷ ("SPU", λ item. item.spu_id)
        ∷ ("动作", λ item. tag_or_dash item.action)
        ∷ ("批次", λ item. item.batch_id)
        ∷ ("建议", λ item. "打开")
        ∷ [])

-- Where the buttons of a row lead.
unfoldable pub row_links : TraceEvent → String × String
row_links item = ("/batches/" +++ item.batch_id, "/actions/" +++ item.decision_id)
