-- ===== src/Supplement/Forbidden.antt =====
-- pages/ForbiddenPage.tsx of the supplementary frontend.
use profit_decision_engine.Prelude.{
  String, List, [], ◌∷◌, ◌++◌, Option, none, some, Bool, false, ◌==◌, or_else, lookup,
  if◌then◌else◌,
}
use profit_decision_engine.Prelude.Query.{Params}
use profit_decision_engine.Supplement.Data.{AuthStatus}

abbrev is_role : Option String → Bool
is_role none = false
is_role (some reason) = reason == "role"

abbrev pub no_role : Params → Bool
no_role params = is_role (lookup "reason" params)

-- Where `retry` goes, by the status that the refresh returned.
unfoldable pub retry : Option AuthStatus → String
retry none = "/login"
retry (some status) = if status.authenticated then "/workspace" else "/login"

-- The reason and its explanation.
unfoldable pub reason_texts : Params → String × String
reason_texts params =
    if no_role params
    then ("未配置唯一有效的业务角色", "钉钉身份已确认，但当前没有唯一有效的业务角色。请联系 IT 处理后重新登录。")
    else ("当前角色没有该对象的查看权限", "当前身份无权访问该对象。为保护经营数据，系统不会返回对象名称、状态或摘要。")

-- The buttons and where they lead, `none` where the refresh decides.
unfoldable pub buttons : Params → List (String × Option String)
buttons params =
    (if no_role params then [] else ("返回工作台", some "/workspace") ∷ [])
    ++ (("重新检查权限", none) ∷ ("重新登录", some "/login") ∷ [])

abbrev guidance : Option AuthStatus → Option String
guidance none = none
guidance (some status) = status.support_guidance

unfoldable pub support_text : Option AuthStatus → String
support_text status = or_else (guidance status) "请联系公司 IT 开通或调整角色。"
