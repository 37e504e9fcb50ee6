-- ===== src/Supplement/Detail/View.antt =====
-- What DecisionDetailPage.tsx shows of a decision above the cards with figures.
use profit_decision_engine.Prelude.{
  String, List, [], ◌∷◌, ◌++◌, Option, Bool, ◌+++◌, or_else, truthy, if◌then◌else◌,
}
use profit_decision_engine.Supplement.Data.{Decision}
use profit_decision_engine.Supplement.StatusTag.{status_tag}
use profit_decision_engine.Supplement.Detail.Format.{or_dash}
use profit_decision_engine.Supplement.Texts.{tag_if, awaited}

abbrev pub Tag : Type 0
Tag = String × String

-- `x || "—"` for a field that may be missing
abbrev text_or_dash : Option String → String
text_or_dash text = or_dash (or_else text "")

abbrev pub title_of : Decision → String
title_of decision = if truthy decision.spu_name then decision.spu_name else decision.spu_id

-- The tag of the review, which stands in the header and in its card.
unfoldable pub review_tag : Decision → List Tag
unfolding tag_if
review_tag decision = tag_if (awaited decision.review_state)

pub record Header : Type 0 where
  pub title : String
  pub description : String
  pub tags : List Tag
  pub trace_path : String

unfoldable pub header : Decision → Header
unfolding review_tag
header decision = record {
  title = title_of decision;
  description = "SPU " +++ (decision.spu_id +++ (" · 批次 " +++ decision.batch_id));
  tags = review_tag decision;
  trace_path = "/trace?decision_id=" +++ decision.decision_id;
}

unfoldable pub hero_tags : Bool → Decision → List Tag
unfolding tag_if status_tag
hero_tags is_procurement decision =
    (if is_procurement then [] else tag_if decision.category ++ tag_if decision.main_action)
    ++ status_tag decision.replenishment_action ∷ []

unfoldable pub hero_title : Bool → Decision → String
hero_title is_procurement decision =
    if is_procurement
    then "采购结论：" +++ decision.replenishment_label
    else "经营建议："
      +++ (or_else decision.main_action_label "—" +++ (" · " +++ decision.replenishment_label))

unfoldable pub context : Decision → List (String × String)
context decision =
    ("店铺 / 平台", or_dash decision.store +++ (" · " +++ text_or_dash decision.platform))
    ∷ ("数据期间", text_or_dash decision.period_start +++ (" 至 " +++ text_or_dash decision.period_end))
    ∷ ("业务截止日", text_or_dash decision.business_date)
    ∷ ("规则快照", text_or_dash decision.rule_version)
    ∷ []
