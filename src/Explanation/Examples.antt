-- ===== src/Explanation/Examples.antt =====
-- Tests of `formatAIExplanation`, and its theorems on concrete contents.
use profit_decision_engine.Prelude.{
  String, [], ◌∷◌, map, Option, none, some, true, false, arith, ◌==◌, ◌≡◌, refl, trim,
  if◌then◌else◌,
}
use profit_decision_engine.Json.{Json, str, obj, Fields, end, field, null}
use profit_decision_engine.Explanation.{
  AiExplanationField, field_of, format_ai_explanation, format_value, format_structured, format_text,
  structured_at, keys, part_label,
}
use profit_decision_engine.Explanation.Depth.{format_structured_once, structured_at_two}
use profit_decision_engine.Explanation.Actions.{format_text-action}

-- A parser that knows one text.
abbrev parse : String → Option Json
parse text = elim (text == "{rule}") [
  | true ↦ some (obj (field "trigger_rule" (str "R1") (field "other" (str "{rule}") end)))
  | false ↦ none
]

-- The text of one member that every object inherits.
abbrev inherited : String → Option String
inherited key = if key == "toString" then some "function" else none

abbrev content : Fields
content =
    field "action" (str "clearance+prohibit_restock")
      (field "problem" (str "{rule}") (field "summary" null end))

content_test :
    map (λ f. f.value) (format_ai_explanation parse inherited content)
    ≡ "触发规则：R1；other：{rule}" ∷ "清仓 + 禁止补货" ∷ []
unfolding format_ai_explanation trim profit_decision_engine.Explanation.split_plus
content_test = refl

-- A code that is the name of an inherited member is shown as the text of that member.
inherited_test : part_label inherited " toString" ≡ "function"
unfolding trim
inherited_test = refl

structured_at_two_example :
    structured_at parse inherited 5 (obj content) 0
    ≡ structured_at parse inherited 2 (obj content) 0
structured_at_two_example = structured_at_two parse inherited 3 (obj content) 0

format_structured_once_case :
    format_structured parse inherited (λ v d. "") (obj content) 1
    ≡ format_structured parse inherited (λ v d. "deep") (obj content) 1
format_structured_once_case =
    format_structured_once parse inherited (λ v d. "") (λ v d. "deep") (obj content) 1 (omega arith)

format_text-action_example :
    format_text parse inherited (λ v d. "") "action" " observe+x" 0 ≡ "观察 + x"
unfolding trim
format_text-action_example =
    format_text-action parse inherited (λ v d. "") " observe+x" "observe" ("x" ∷ []) 0 refl refl
      ((refl, (refl, (refl, (refl, (refl, (refl, (refl, tt))))))), ((refl, tt), tt))
