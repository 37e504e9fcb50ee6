-- ===== src/Supplement/Actions/Cards.antt =====
-- What ActionListPage.tsx shows: figures, the notice, the selects, the banner and the rows.
use profit_decision_engine.Prelude.{
  String, List, [], ◌∷◌, ◌++◌, map, Option, none, some, Bool, not, ◌&&◌, ◌+++◌, length, truthy,
  or_else, slice_to, if◌then◌else◌,
}
use profit_decision_engine.Prelude.Decimal.{to_decimal}
use profit_decision_engine.Supplement.Data.{Decision, Batch}
use profit_decision_engine.Supplement.StatusTag.{status_tag}
use profit_decision_engine.Supplement.Options.{unique_options}
use profit_decision_engine.Supplement.Actions.View.{urgent_count, pending_count, blocked_count}
use profit_decision_engine.Supplement.Texts.{is_operator, tag_if, awaited}

-- The cards of the counts: label, value, hint.
unfoldable pub metrics : Bool → List Decision → List (String × String × String)
unfolding urgent_count pending_count blocked_count to_decimal
metrics is_procurement source =
    ("行动总数", to_decimal (length source), "当前页可见决策")
    ∷ ("清仓 / 止损", to_decimal (urgent_count source), "优先处理高风险动作")
    ∷ ("待主管审核", (if is_procurement then "—" else to_decimal (pending_count source)), "审核通过后才可执行")
    ∷ ("执行阻塞", to_decimal (blocked_count source), "需检查经营或采购轨道")
    ∷ []

-- The message and the description of the notice.
unfoldable pub guidance : Bool → String × String
guidance is_procurement = (
  (if is_procurement then "采购任务处理指引" else "清单处理指引"),
  if is_procurement then "仅处理与当前账号关联的补货或禁止补货任务；完成后记录真实结果。" else "先处理清仓与止损，再完成审核；审核结果不会自动代替经营或采购执行。",
)

-- The options of a select: value and label.
abbrev same_label : String → String × String
same_label value = (value, value)

abbrev main_options : List (String × String)
main_options = ("clearance", "清仓") ∷ ("stop_loss", "止损") ∷ ("observe", "观察") ∷ ("invest", "加投") ∷ []

abbrev replenishment_options : List (String × String)
replenishment_options = ("replenish", "补货") ∷ ("forbid", "禁止补货") ∷ []

abbrev review_options : List (String × String)
review_options = ("pending", "待审核") ∷ ("approved", "已通过") ∷ ("rejected", "已驳回") ∷ []

unfoldable pub lane_states : List Decision → List (Option String)
lane_states [] = []
lane_states (item ∷ items) =
    map (λ lane. some lane.execution_state) item.actions ++ lane_states items

-- The selects of the filter bar with their placeholders, in order.
unfoldable pub selects : Bool → List Decision → List (String × List (String × String))
unfolding unique_options lane_states
selects is_procurement source =
    ("全部批次", map same_label (unique_options (map (λ item. some item.batch_id) source)))
      ∷ (if is_procurement then [] else ("经营动作", main_options) ∷ [])
    ++ (("库存动作", replenishment_options)
          ∷ ("店铺", map same_label (unique_options (map (λ item. some item.store) source)))
          ∷ (if is_procurement
              then []
              else (
                "责任运营",
                map same_label (unique_options (map (λ item. item.operator_ref) source)),
              )
                ∷ ("审核状态", review_options)
                ∷ [])
        ++ ("执行状态", map same_label (unique_options (lane_states source))) ∷ [])

-- The option of a batch in the banner
abbrev batch_option : Batch → String × String
batch_option batch = (batch.batch_id, slice_to 7 batch.period_start +++ (" · " +++ batch.batch_id))

abbrev period_text : Option Batch → String
period_text none = "读取中"
period_text (some batch) = batch.period_start +++ (" 至 " +++ batch.period_end)

-- The banner of the active batch.
pub record Banner : Type 0 where
  pub options : List (String × String)
  pub selected : String
  pub period : String
  pub path : String

unfoldable pub banner : Bool → Option String → List Batch → Option Batch → Option Banner
banner is_procurement none batches loaded = none
banner is_procurement (some id) batches loaded =
    if not is_procurement && truthy id
    then some (record {
      options = map batch_option batches;
      selected = id;
      period = period_text loaded;
      path = "/batches/" +++ id;
    })
    else none

-- A row: title, subtitle, tags, operator, and the track and the tag of each lane.
pub record Row : Type 0 where
  pub path : String
  pub title : String
  pub subtitle : String
  pub tags : List (String × String)
  pub owner : Option String
  pub tracks : List (String × String × String)

abbrev or_text : String → String → String
or_text value fallback = if truthy value then value else fallback

unfoldable pub row_view : Bool → Decision → Row
unfolding tag_if status_tag
row_view is_procurement item = record {
  path = "/actions/" +++ item.decision_id;
  title = item.spu_name;
  subtitle = item.spu_id +++ (" · " +++ item.store);
  tags =
      (if is_procurement then [] else tag_if item.main_action)
      ++ (status_tag item.replenishment_action
          ∷ (if is_procurement then [] else tag_if (awaited item.review_state)));
  owner =
      if is_procurement
      then none
      else some ("责任运营：" +++ or_text (or_else item.operator_ref "") "未关联");
  tracks =
      map
        (λ lane. (
          (if is_operator lane.owner_role then "经营" else "采购") +++ "轨道：",
          (status_tag lane.execution_state).0,
          (status_tag lane.execution_state).1,
        ))
        item.actions;
}
