-- ===== src/Supplement/Detail/Format.antt =====
-- How DecisionDetailPage.tsx writes values of unknown type. Number parsing and the formats of `Intl`
-- are the browser's.
use profit_decision_engine.Prelude.{
  String, List, [], ◌∷◌, ℕ, Option, none, some, true, false, ◌||◌, ◌==◌, ◌+++◌, lookup, or_else,
  join, if◌then◌else◌,
}
use profit_decision_engine.Json.{
  Json, undefined, null, bool, num, str, arr, obj, Items, nil, cons, Fields, end, field,
}
use profit_decision_engine.Supplement.Data.{Decision}

-- `finite` is `Number(value)` where it is finite, as its text; the formats are those of
-- `Intl.NumberFormat` for zh-CN.
pub record Locale : Type 0 where
  pub stringify : Json → String
  pub finite : Json → Option String
  pub decimal : ℕ → String → String
  pub currency : String → String
  pub percent : String → String
  pub local_time : String → String

-- A field that may be missing, as a value.
abbrev pub optional : Option String → Json
optional none = null
optional (some s) = str s

abbrev pub or_dash : String → String
or_dash s = if s == "" then "—" else s

module _ (locale : Locale) where
  open locale use {stringify, finite, decimal, currency, percent}

  unfoldable pub display : Json → String
  display undefined = "—"
  display null = "—"
  display (str s) = or_dash s
  display (bool true) = "true"
  display (bool false) = "false"
  display (num n) = n
  display (arr items) = stringify (arr items)
  display (obj fields) = stringify (obj fields)

  unfoldable pub number_value : Json → Option String
  number_value undefined = none
  number_value null = none
  number_value (str s) = if s == "" then none else finite (str s)
  number_value (bool b) = finite (bool b)
  number_value (num n) = finite (num n)
  number_value (arr items) = finite (arr items)
  number_value (obj fields) = finite (obj fields)

  abbrev formatted : (String → String) → Option String → Json → String
  unfolding display
  formatted format none value = display value
  formatted format (some parsed) value = format parsed

  unfoldable pub format_number : Json → ℕ → String
  unfolding number_value formatted
  format_number value maximum_fraction_digits =
      formatted (decimal maximum_fraction_digits) (number_value value) value

  unfoldable pub format_currency : Json → String
  unfolding number_value formatted
  format_currency value = formatted currency (number_value value) value

  unfoldable pub format_percent : Json → String
  unfolding number_value formatted
  format_percent value = formatted percent (number_value value) value

  abbrev pub evidence_labels : List (String × String)
  evidence_labels =
      ("spu_id", "SPU")
      ∷ ("spu_name", "商品")
      ∷ ("net_sales", "净销售额")
      ∷ ("profit_rate", "经营准利润率")
      ∷ ("return_rate_7d", "最近 7 天品退率")
      ∷ ("inventory_days", "库存可售天数")
      ∷ ("quality_flags", "数据质量提示")
      ∷ []

  displays : Items → List String
  unfolding display
  displays nil = []
  displays (cons value rest) = display value ∷ displays rest

  listed : Json → String
  unfolding display displays
  listed (arr nil) = "无"
  listed (arr (cons value rest)) = join "、" (displays (cons value rest))
  listed value = display value

  unfoldable pub evidence_value : String → Json → String
  unfolding format_currency format_percent format_number listed
  evidence_value key value =
      if key == "net_sales"
      then format_currency value
      else if key == "profit_rate" || key == "return_rate_7d"
      then format_percent value
      else if key == "inventory_days"
      then format_number value 1 +++ " 天"
      else listed value

  entry_texts : Fields → List String
  unfolding evidence_value
  entry_texts end = []
  entry_texts (field key item rest) =
      (or_else (lookup key evidence_labels) key +++ ("：" +++ evidence_value key item))
      ∷ entry_texts rest

  human_object : Fields → String
  unfolding display entry_texts
  human_object (field key value end) =
      if key == "summary" then display value else join "；" (entry_texts (field key value end))
  human_object fields = join "；" (entry_texts fields)

  unfoldable pub human_display : Json → String
  unfolding display human_object
  human_display (obj fields) = human_object fields
  human_display value = display value

  -- The sentences of `ruleDescription`, by rule.
  rule_descriptions : Decision → List (String × String)
  unfolding format_currency format_percent format_number
  rule_descriptions decision =
      let sales = format_currency (optional decision.net_sales) in
      let profit = format_percent (optional decision.profit_rate) in
      let returns = format_percent (optional decision.return_rate_7d) in
      let days = format_number (optional decision.inventory_days) 1 +++ " 天" in
      let rates = "当前利润率 " +++ (profit +++ ("、品退率 " +++ (returns +++ "。"))) in
      ("non-new-sales-below-20000", "非新品且净销售额 " +++ (sales +++ "＜¥20,000.00，分类为淘汰品并优先清仓。"))
      ∷ ("loss-action-forbids-replenishment", "清仓/止损动作优先级已生效，库存动作原子设为禁止补货。")
      ∷ ("large_hit-fixed-priority", "大爆品按清仓＞止损＞观察＞加投顺序判定；" +++ rates)
      ∷ ("small_hit-fixed-priority", "小爆品按清仓＞止损＞观察＞加投顺序判定；" +++ rates)
      ∷ ("inventory-days-boundary-30", "当前库存可售 " +++ (days +++ "，以 30 天为补货边界。"))
      ∷ ("new-product-no-replenishment-v1", "新品阶段不生成补货结论，避免用短周期销量推导采购动作。")
      ∷ ("classification-input-invalid", "分类必要输入不可用，本批次不生成经营结论。")
      ∷ ("profit-rate-unavailable", "经营准利润率不可用，停止依赖利润率的动作判断。")
      ∷ []

  unfoldable pub rule_description : String → Decision → String
  unfolding rule_descriptions
  rule_description rule decision =
      or_else (lookup rule (rule_descriptions decision))
        ("规则 " +++ (rule +++ (" 已按 " +++ (or_else decision.rule_version "固化版本" +++ " 执行。"))))

-- `traceEventLabel`
abbrev pub trace_event_labels : List (String × String)
trace_event_labels =
    ("review_approve", "主管通过")
    ∷ ("review_reject", "主管驳回")
    ∷ ("action_executed", "动作执行")
    ∷ ("action_result_recorded", "结果回填")
    ∷ ("result_recorded", "结果回填")
    ∷ []

unfoldable pub trace_event_label : String → String
trace_event_label event_type = or_else (lookup event_type trace_event_labels) event_type
