-- ===== src/Explanation.antt =====
-- web/src/aiExplanation.ts: the four fields of a model's explanation as readable lines. `parse`
-- stands for `JSON.parse`, and `none` for its exception; `inherited` for the texts of the members
-- that every object inherits.
pub mod Depth
pub mod Actions
mod Examples
use Prim.Native.String
use profit_decision_engine.Prelude.{
  String, code, ℕ, zero, suc, ◌+◌, List, [], ◌∷◌, map, Option, none, some, Bool, true, false, not,
  ◌&&◌, ◌||◌, ◌==◌, ◌+++◌, if◌then◌else◌, leb, eqb, is_some, or_else, lookup, trim, truthy,
  starts_with, join, filter,
}
use profit_decision_engine.Json.{
  Json, undefined, null, bool, num, str, arr, obj, Items, nil, cons, Fields, end, field, member,
}

abbrev pub field_labels : List (String × String)
field_labels =
    ("problem", "问题解释") ∷ ("evidence", "关键依据") ∷ ("action", "动作解释") ∷ ("summary", "解读摘要") ∷ []

abbrev pub nested_labels : List (String × String)
nested_labels =
    ("trigger_rule", "触发规则")
    ∷ ("net_sales_prev_month", "上月净销售额")
    ∷ ("operating_profit_rate", "经营准利润率")
    ∷ ("quality_return_rate_7d", "近 7 天品退率")
    ∷ ("inventory_days", "库存可售天数")
    ∷ []

abbrev pub action_labels : List (String × String)
action_labels =
    ("clearance", "清仓")
    ∷ ("stop_loss", "止损")
    ∷ ("observe", "观察")
    ∷ ("invest", "加投")
    ∷ ("maintain", "维持")
    ∷ ("restock", "补货")
    ∷ ("no_restock", "不补货")
    ∷ ("prohibit_restock", "禁止补货")
    ∷ []

-- `labels[key] ?? key` in a text: such a read also finds what every object inherits, and `inherited`
-- gives the text of that member.
abbrev pub label_of : (String → Option String) → List (String × String) → String → String
label_of inherited labels key = or_else (lookup key labels) (or_else (inherited key) key)

-- `text.split('+')`: `cur` is the part read so far.
split_plus_from : String → String → List String
split_plus_from cur String.[] = cur ∷ []
split_plus_from cur (String.◌∷◌ c s) =
    let closed = cur ∷ split_plus_from "" s in
    let longer = split_plus_from (cur +++ String.◌∷◌ c "") s in
    if eqb (code c) b'+' then closed else longer

unfoldable pub split_plus : String → List String
unfolding split_plus_from
split_plus text = split_plus_from "" text

-- `actionLabels[part.trim()] ?? part.trim()`
abbrev pub part_label : (String → Option String) → String → String
part_label inherited part = label_of inherited action_labels (trim part)

-- `String(value)` on what is not an object
abbrev bool_text : Bool → String
bool_text true = "true"
bool_text false = "false"

pub record AiExplanationField : Type 0 where
  pub key : String
  pub label : String
  pub value : String

abbrev pub keys : List String
keys = "problem" ∷ "evidence" ∷ "action" ∷ "summary" ∷ []

module _ (parse : String → Option Json) (inherited : String → Option String) where
  -- A text under a key; `again` formats what it parses to.
  unfoldable pub format_text : (Json → ℕ → String) → String → String → ℕ → String
  format_text again key value depth =
      let text = trim value in
      if not (truthy text)
      then ""
      else if key == "action"
      then join " + " (map (part_label inherited) (split_plus text))
      else if leb 2 depth || not (starts_with text "{") && not (starts_with text "[")
      then text
      else elim (parse text) [ some parsed ↦ again parsed (depth + 1) | none ↦ text ]

  -- `formatValue` of a value, given what `formatStructured` makes of it
  abbrev pub value_with : (Json → ℕ → String) → String → Json → ℕ → String → String
  value_with again key (str text) depth structured = format_text again key text depth
  value_with again key _ depth structured = structured

  unfoldable mutual
    -- `formatStructured`
    pub format_structured : (Json → ℕ → String) → Json → ℕ → String
    format_structured again undefined depth = ""
    format_structured again null depth = ""
    format_structured again (bool b) depth = bool_text b
    format_structured again (num n) depth = n
    format_structured again (str s) depth = s
    format_structured again (arr items) depth =
        join "；" (filter truthy (format_items again items (suc depth)))
    format_structured again (obj fields) depth = join "；" (format_fields again fields (suc depth))

    pub format_items : (Json → ℕ → String) → Items → ℕ → List String
    format_items again nil depth = []
    format_items again (cons item rest) depth =
        format_structured again item depth ∷ format_items again rest depth

    pub format_fields : (Json → ℕ → String) → Fields → ℕ → List String
    format_fields again end depth = []
    format_fields again (field key nested rest) depth =
        (label_of inherited nested_labels key
          +++ ("：" +++ value_with again key nested depth (format_structured again nested depth)))
        ∷ format_fields again rest depth

  -- `formatStructured`, with a bound on how often a text is parsed within a parsed text.
  unfoldable pub structured_at : ℕ → Json → ℕ → String
  unfolding format_structured
  structured_at zero value depth = ""
  structured_at (suc rounds) value depth = format_structured (structured_at rounds) value depth

  -- `formatValue`; two rounds are enough (`Depth`).
  unfoldable pub format_value : String → Json → ℕ → String
  unfolding structured_at format_text
  format_value key value depth =
      value_with (structured_at 1) key value depth (structured_at 2 value depth)

  -- The field of a key; the four keys are no inherited members.
  abbrev pub field_of : Fields → String → AiExplanationField
  field_of content key = record {
    key = key;
    label = or_else (lookup key field_labels) "";
    value = format_value key (or_else (member key content) undefined) 0;
  }

  unfoldable pub format_ai_explanation : Fields → List AiExplanationField
  unfolding format_value
  format_ai_explanation content =
      filter (λ f. not (f.value == ""))
        (map (field_of content) (filter (λ key. is_some (member key content)) keys))
