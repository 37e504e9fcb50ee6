-- ===== src/Suggestion/Feedback.antt =====
-- What the commands of web/src/pages/SuggestionDetailPage.tsx share: the state of a mutation, its
-- outcome, and `conflictFeedback`.
use profit_decision_engine.Prelude.{
  String, Option, none, some, Bool, true, false, not, ◌==◌, ◌+++◌, or_else, trim, truthy,
  if◌then◌else◌,
}
use profit_decision_engine.Prelude.Decimal.{to_decimal}
use profit_decision_engine.Schema.{
  SuggestionDetail, ConflictLatest, ReviewStatus, pending, approved,
}

-- What the pages take from the browser: `encodeURIComponent`, the next `crypto.randomUUID()`, a
-- local date, `new Date(value).toISOString()` and `String(Number(value))`.
pub record Browser : Type 0 where
  pub encode : String → String
  pub key : String
  pub date : String → String
  pub instant : String → String
  pub figure : String → String

pub data Mutation : Type 0 where
  idle running succeeded errored : Mutation

-- `isPending`
abbrev pub is_running : Mutation → Bool
is_running running = true
is_running _ = false

-- An error that a command ends with: a `BusinessError` by code and latest state, or another one.
pub data Failure : Type 0 where
  business_failure : String → Option ConflictLatest → Failure
  other_failure : Failure

pub data Outcome : Type 0 where
  updated : SuggestionDetail → Outcome
  refused : Failure → Outcome

-- `!text.trim()`
unfoldable pub blank : String → Bool
unfolding trim
blank text = not (truthy (trim text))

-- `value === text`, for a value that may be null
abbrev pub is_text : Option String → String → Bool
is_text none text = false
is_text (some value) text = value == text

abbrev pub is_approved : ReviewStatus → Bool
is_approved approved = true
is_approved _ = false

abbrev pub is_pending_review : ReviewStatus → Bool
is_pending_review pending = true
is_pending_review _ = false

abbrev updated_text : (String → String) → Option String → String
updated_text date none = "刚刚"
updated_text date (some at) = if truthy at then date at else "刚刚"

abbrev pub conflict_text : (String → String) → ConflictLatest → String
conflict_text date latest =
    "状态已由 "
    +++ (or_else latest.actor_ref "其他操作者"
        +++ (" 于 "
            +++ (updated_text date latest.updated_at
                +++ (" 更新；最新审核 "
                    +++ (latest.review_status
                        +++ ("（v"
                            +++ (to_decimal latest.review_version
                                +++ ("），经营 "
                                    +++ (latest.business_state
                                        +++ ("（v"
                                            +++ (to_decimal latest.business_version
                                                +++ ("），协同 "
                                                    +++ (latest.inventory_state
                                                        +++ ("（v"
                                                            +++ (to_decimal latest.inventory_version
                                                            +++ "）。输入已保留，请刷新后重新判断。")))))))))))))))

-- `conflictFeedback`
unfoldable pub conflict_feedback : (String → String) → Failure → String → String
conflict_feedback date other_failure fallback = fallback
conflict_feedback date (business_failure code none) fallback =
    if code == "version_conflict" then "状态已更新，请刷新后重新判断；输入已保留。" else fallback
conflict_feedback date (business_failure code (some latest)) fallback =
    if code == "version_conflict" then conflict_text date latest else fallback
