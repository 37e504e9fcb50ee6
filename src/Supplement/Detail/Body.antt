-- ===== src/Supplement/Detail/Body.antt =====
-- The cards that DecisionDetailPage.tsx shows to a role, in order, without the timeline, and what
-- they keep from the procurement role.
use profit_decision_engine.Prelude.{String, List, map, Option, none, some, Bool, if◌then◌else◌}
use profit_decision_engine.Supplement.Data.{Role, Decision}
use profit_decision_engine.Supplement.Shell.{is_procurement}
use profit_decision_engine.Supplement.Detail.Format.{Locale}
use profit_decision_engine.Supplement.Detail.View.{Header, header, hero_tags, hero_title, context}
use profit_decision_engine.Supplement.Detail.Cards.{
  metric_items, four_elements, rule_path, ai_alert, Lane, lane_view, review_card,
}

pub record Body : Type 0 where
  pub header : Header
  pub hero : List (String × String) × String
  pub context : Option (List (String × String))
  pub four_elements : Option (List (String × String))
  pub metrics : List (String × String × String)
  pub rule_path : Option (List (String × String × String))
  pub ai : Option (String × String × String)
  pub lanes : List Lane
  pub review : List (String × String) × Option String × Option String × List String

abbrev unless {ℓ} : {A : Type ℓ} → Bool → A → Option A
unless b a = if b then none else some a

unfoldable pub body : Locale → Option Role → Decision → Body
unfolding header hero_tags hero_title context metric_items four_elements rule_path ai_alert
    lane_view review_card
body locale role decision =
    let hidden = is_procurement role in
    record {
      header = header decision;
      hero = (hero_tags hidden decision, hero_title hidden decision);
      context = unless hidden (context decision);
      four_elements = unless hidden (four_elements locale decision);
      metrics = metric_items locale hidden decision;
      rule_path = unless hidden (rule_path locale decision);
      ai = unless hidden (ai_alert locale decision.ai);
      lanes = map (lane_view locale role) decision.actions;
      review = review_card locale role decision;
    }
