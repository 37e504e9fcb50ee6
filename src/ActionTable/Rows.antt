-- ===== src/ActionTable/Rows.antt =====
-- The two tables of web/src/components/ActionTable.tsx: their rows, the expanded rows between them,
-- and the tones of the status lines. A figure is the text of its number.
use profit_decision_engine.Prelude.{
  String, List, [], ◌∷◌, ◌++◌, map, Option, none, some, Bool, not, ◌||◌, ◌==◌, ◌+++◌, join, lookup,
  or_else, truthy, if◌then◌else◌,
}
use profit_decision_engine.Schema.{
  ActionItem, PreviousActionItem, ReviewStatus, pending, approved, rejected, RelationType, new_task,
  same_action_continuation, action_change_pending,
}
use profit_decision_engine.ActionTable.{
  actions, states, relation_text, review_text, ai_text, clearance_text, notification_text,
  track_cells, data_limitations_of,
}

-- `toLocaleString` of whole amounts and of times, the fixed decimals of a percentage and of days, and
-- `encodeURIComponent`.
pub record Formats : Type 0 where
  pub whole : String → String
  pub hundredfold : String → String
  pub one_decimal : String → String
  pub local_time : String → String
  pub encode : String → String

abbrev relation_key : RelationType → String
relation_key new_task = "new_task"
relation_key same_action_continuation = "same_action_continuation"
relation_key action_change_pending = "action_change_pending"

abbrev review_key : ReviewStatus → String
review_key pending = "pending"
review_key approved = "approved"
review_key rejected = "rejected"

pub data Tone : Type 0 where
  ready_tone pending_tone failed_tone : Tone

-- `StatusLine`
pub record StatusLine : Type 0 where
  pub label : String
  pub value : String
  pub tone : Tone

abbrev review_tone : ReviewStatus → Tone
review_tone approved = ready_tone
review_tone rejected = failed_tone
review_tone pending = pending_tone

abbrev tone_by : String → String → String → Tone
tone_by value ready waiting =
    if value == ready then ready_tone else if value == waiting then pending_tone else failed_tone

abbrev clearance_tone : String → Tone
clearance_tone status =
    if status == "confirmed"
    then ready_tone
    else if status == "returned"
    then failed_tone
    else pending_tone

abbrev clearance_line : Option String → List StatusLine
unfolding clearance_text
clearance_line none = []
clearance_line (some status) =
    if truthy status
    then record { label = "完成确认"; value = clearance_text status; tone = clearance_tone status } ∷ []
    else []

-- The lines on review, explanation, notification and, if there is one, the completion.
unfoldable pub status_lines : ActionItem → List StatusLine
unfolding review_text ai_text notification_text clearance_line
status_lines item =
    record {
      label = "审核";
      value = review_text (review_key item.review_status);
      tone = review_tone item.review_status;
    }
    ∷ record {
      label = "AI";
      value = ai_text item.latest_ai_status;
      tone = tone_by item.latest_ai_status "generated" "generating";
    }
    ∷ record {
      label = "钉钉";
      value = notification_text item.latest_notification_status item.latest_notification_error_code;
      tone = tone_by (or_else item.latest_notification_status "") "sent" "pending";
    }
    ∷ clearance_line item.latest_clearance_status

-- `DataLimitations`
limitation_text : List (String × String) → String
limitation_text [] = "数据校验通过"
limitation_text (entry ∷ entries) = "数据限制：" +++ join "；" (map (λ e. e.0 +++ e.1) (entry ∷ entries))

abbrev business_text : Option String → String
business_text none = "依据不足"
business_text (some action) =
    if truthy action then or_else (lookup action actions) action else "依据不足"

abbrev inventory_text : String → String
inventory_text action =
    if action == "restock" || action == "prohibit_restock"
    then or_else (lookup action actions) ""
    else "无协同任务"

-- `ActionPair`
unfoldable pub action_pair : Option String → Option String → String × String
action_pair business inventory = (business_text business, inventory_text (or_else inventory ""))

-- A row: its cells, each a list of texts, and the text and the address of its link.
pub record Row : Type 0 where
  pub cells : List (List String)
  pub lines : List StatusLine
  pub link : String × String

-- Which rows are expanded, by link; `setExpanded` on a press.
unfoldable pub toggle : String → (String → Bool) → String → Bool
toggle id expanded j = if id == j then not (expanded j) else expanded j

abbrev fold_text : Option PreviousActionItem → Bool → String → String
fold_text none is_open without = without
fold_text (some previous) is_open without = if is_open then "收起最近前序" else "展开最近前序"

module _ (formats : Formats) where
  open formats use {whole, hundredfold, one_decimal, local_time, encode}

  money : Option String → String
  money none = "数据不足"
  money (some value) = "¥" +++ whole value

  percent : Option String → String
  percent none = "数据不足"
  percent (some value) = hundredfold value +++ "%"

  days : Option String → String
  days none = "数据不足"
  days (some value) = one_decimal value +++ " 天"

  time_or_dash : Option String → String
  time_or_dash none = "—"
  time_or_dash (some at) = if truthy at then local_time at else "—"

  times : String → String → String → Option String → List String
  unfolding time_or_dash
  times linked created linked_at executed_at =
      ("产生 " +++ local_time created)
      ∷ (linked +++ local_time linked_at)
      ∷ ("执行 " +++ time_or_dash executed_at)
      ∷ []

  figures : Option String → Option String → String
  unfolding money percent
  figures sales profit = "销售 " +++ (money sales +++ (" · 利润 " +++ percent profit))

  details : Option String → Option String → Option String → List String
  unfolding money percent days
  details profit sales stock =
      ("经营准利润率 " +++ percent profit) ∷ ("上月净销售额 " +++ money sales) ∷ ("库存可售天数 " +++ days stock) ∷ []

  -- The address of an item's detail; `here` is the path and the query of the page.
  unfoldable pub item_link : Bool → String → String → String
  item_link history_mode here link_id =
      "/suggestions/"
      +++ (link_id +++ (if history_mode then "?mode=history&return_to=" +++ encode here else ""))

  track_texts : String → Option String → String → List String
  unfolding track_cells
  track_texts label action state =
      label ∷ or_else (track_cells action state).0 "未生成动作" ∷ (track_cells action state).1 ∷ []

  abbrev state_text : String → String
  state_text state = or_else (lookup state states) state

  -- A row of the table, and the one of its predecessor.
  unfoldable pub row : Bool → Bool → String → Bool → ActionItem → Row
  unfolding relation_text action_pair figures review_text times item_link
  row shows_review history_mode here is_open item = record {
    cells =
        (item.name
            ∷ (item.spu_id +++ (" · " +++ item.store))
            ∷ fold_text item.previous is_open "本周新任务"
            ∷ [])
          ∷ ((action_pair item.suggested_business_action item.suggested_inventory_action).0
              ∷ (action_pair item.suggested_business_action item.suggested_inventory_action).1
              ∷ relation_text (relation_key item.relation_type)
              ∷ [])
          ∷ (item.trigger_rule ∷ figures item.net_sales_prev_month item.operating_profit_rate ∷ [])
          ∷ (item.operator_ref ∷ [])
          ∷ (if shows_review then (review_text (review_key item.review_status) ∷ []) ∷ [] else [])
        ++ ((state_text item.business_state ∷ [])
            ∷ times "本周关联 " item.task_created_at item.linked_at item.business_executed_at
            ∷ []);
    lines = [];
    link = (if history_mode then "只读追溯" else "查看详情", item_link history_mode here item.link_id);
  }

  unfoldable pub previous_row : Bool → PreviousActionItem → Row
  unfolding action_pair figures times
  previous_row shows_review item = record {
    cells =
        (item.name ∷ (item.spu_id +++ " · 前序只读") ∷ [])
          ∷ ((action_pair item.business_action item.inventory_action).0
              ∷ (action_pair item.business_action item.inventory_action).1
              ∷ item.batch_code
              ∷ [])
          ∷ (item.trigger_rule ∷ figures item.net_sales_prev_month item.operating_profit_rate ∷ [])
          ∷ ("原责任运营" ∷ [])
          ∷ (if shows_review then ("历史快照" ∷ []) ∷ [] else [])
        ++ ((state_text item.business_state ∷ [])
            ∷ times "当周关联 " item.task_created_at item.linked_at item.business_executed_at
            ∷ []);
    lines = [];
    link = ("追溯", "/suggestions/" +++ (item.link_id +++ "?mode=history"));
  }

  -- The same of the detailed table.
  unfoldable pub detailed_row : Bool → String → Bool → ActionItem → Row
  unfolding relation_text details track_texts status_lines data_limitations_of limitation_text times
      item_link
  detailed_row history_mode here is_open item = record {
    cells =
        (item.name
          ∷ (item.spu_id +++ (" · " +++ item.store))
          ∷ (item.platform +++ (" · 责任运营 " +++ item.operator_ref))
          ∷ relation_text (relation_key item.relation_type)
          ∷ fold_text item.previous is_open "无前序待办"
          ∷ [])
        ∷ (item.trigger_rule
            ∷ details item.operating_profit_rate item.net_sales_prev_month item.inventory_days)
        ∷ track_texts "经营动作" item.effective_business_action item.business_state
        ∷ track_texts "库存/钉钉协同" item.effective_inventory_action item.inventory_state
        ∷ (limitation_text (data_limitations_of item.quality) ∷ [])
        ∷ (item.operator_ref
            ∷ times "本周关联 " item.task_created_at item.linked_at item.business_executed_at)
        ∷ [];
    lines = status_lines item;
    link = (if history_mode then "只读追溯" else "查看建议", item_link history_mode here item.link_id);
  }

  unfoldable pub detailed_previous_row : PreviousActionItem → Row
  unfolding details track_texts times
  detailed_previous_row item = record {
    cells =
        (item.name ∷ (item.spu_id +++ (" · " +++ item.batch_code)) ∷ "最近前序 · 只读" ∷ [])
        ∷ (item.trigger_rule
            ∷ details item.operating_profit_rate item.net_sales_prev_month item.inventory_days)
        ∷ track_texts "经营动作" item.business_action item.business_state
        ∷ track_texts "库存语境" item.inventory_action "历史快照"
        ∷ ("原批次证据与状态，不使用当前周回填" ∷ [])
        ∷ times "当周关联 " item.task_created_at item.linked_at item.business_executed_at
        ∷ [];
    lines = record { label = "审核"; value = "历史快照"; tone = pending_tone } ∷ [];
    link = ("只读追溯", "/suggestions/" +++ (item.link_id +++ "?mode=history"));
  }

  abbrev with_previous : (PreviousActionItem → Row) → Bool → Option PreviousActionItem → List Row
  with_previous render is_open none = []
  with_previous render is_open (some previous) = if is_open then render previous ∷ [] else []

  -- The rows of a table: each item, and below it its predecessor while it is expanded.
  unfoldable pub table :
      (Bool → ActionItem → Row)
      → (PreviousActionItem → Row)
      → (String → Bool)
      → List ActionItem
      → List Row
  table render render_previous expanded [] = []
  table render render_previous expanded (item ∷ items) =
      (render (expanded item.link_id) item
        ∷ with_previous render_previous (expanded item.link_id) item.previous)
      ++ table render render_previous expanded items

  unfoldable pub action_table :
      Bool → Bool → Bool → String → (String → Bool) → List ActionItem → List Row
  unfolding table row previous_row detailed_row detailed_previous_row
  action_table is_detailed shows_review history_mode here expanded items =
      if is_detailed
      then table (detailed_row history_mode here) detailed_previous_row expanded items
      else table (row shows_review history_mode here) (previous_row shows_review) expanded items
