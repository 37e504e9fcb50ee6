-- ===== src/Supplement/Texts.antt =====
-- What the pages of the supplementary frontend share: tests of optional filters, of days in a range, and
-- tags of values that may be missing.
use profit_decision_engine.Prelude.{
  String, List, [], ◌∷◌, Option, none, some, Bool, true, false, not, ◌&&◌, ◌||◌, ◌==◌, truthy,
  text_lt, if◌then◌else◌,
}
use profit_decision_engine.Supplement.Data.{Role, operator}
use profit_decision_engine.Supplement.StatusTag.{status_tag}

-- `!wanted || value === wanted`
abbrev pub fits : Option String → Option String → Bool
fits none value = true
fits (some wanted) none = not (truthy wanted)
fits (some wanted) (some value) = not (truthy wanted) || value == wanted

-- `!range || (day >= range[0] && day <= range[1])`
abbrev pub in_range : Option (String × String) → String → Bool
in_range none day = true
in_range (some (first, last)) day = not (text_lt day first) && not (text_lt last day)

abbrev pub is_operator : Role → Bool
is_operator operator = true
is_operator _ = false

-- A status tag, or nothing for a text that is missing or empty.
unfoldable pub tag_if : Option String → List (String × String)
unfolding status_tag
tag_if none = []
tag_if (some value) = if truthy value then status_tag value ∷ [] else []

-- The state of a review as its tag names it.
abbrev pub awaited : Option String → Option String
awaited none = none
awaited (some state) = some (if state == "pending" then "awaiting_review" else state)
