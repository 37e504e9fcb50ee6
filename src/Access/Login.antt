-- ===== src/Access/Login.antt =====
-- web/src/pages/LoginPage.tsx, its state and effects, and `safeHistoryReturn` of
-- web/src/pages/SuggestionDetailPage.tsx. `encode` stands for `encodeURIComponent`.
pub mod Targets
use Prim.Native.String
use text.Mathlib.TextLemmas.{cons-append, nil-append}
use profit_decision_engine.Prelude.{
  String, code, ℕ, Option, none, some, Bool, true, false, not, eqb, if◌then◌else◌, ◌&&◌, ◌||◌, ◌==◌,
  ◌≡◌, refl, ◌+++◌, starts_with, or_else, arith, eq_iff, inl, inr, Bool-cases,
}
use profit_decision_engine.Prelude.Query.{Params, get_or_empty}
use profit_decision_engine.Access.Session.{
  BusinessRole, supervisor, SessionUser, workbench_path, Query, pending, failed, loaded,
}
use profit_decision_engine.Access.Origin.{names_host, IsPlainPath, without_dropped}
use profit_decision_engine.Prelude.{lookup}

-- `requested`, read from the address
abbrev pub requested_of : Params → String
requested_of query = or_else (lookup "return_to" query) "/"

-- `target`
unfoldable pub login_target : String → BusinessRole → String
login_target requested role =
    if not (requested == "/") && starts_with requested "/" && not (starts_with requested "//")
    then requested
    else workbench_path role

-- `safeHistoryReturn`
unfoldable pub safe_history_return : Option String → String
safe_history_return none = "/history"
safe_history_return (some value) = if starts_with value "/history?" then value else "/history"

pub record LoginPage : Type 0 where
  pub starting : Bool
  pub session : Query SessionUser
  pub requested : String

-- The effect on `session.data`: where the page is replaced to, if anywhere.
unfoldable pub redirect : LoginPage → Option String
unfolding login_target
redirect page = elim page.session [
  | loaded user ↦ some (login_target page.requested user.role)
  | _ ↦ none
]

module _ (encode : String → String) where
  unfoldable pub auth_path : LoginPage → String
  auth_path page = "/auth/dingtalk/start?return_to=" +++ encode page.requested

  -- `start`: the new state, and the address that is assigned
  unfoldable pub start : LoginPage → LoginPage × String
  unfolding auth_path
  start page = (record page { starting = true }, auth_path page)

-- `session.isPending`, the disabled button, its label, and the failure notice
abbrev pub is_pending {ℓ} : {A : Type ℓ} → Query A → Bool
is_pending pending = true
is_pending _ = false

unfoldable pub start_disabled : LoginPage → Bool
start_disabled page = page.starting || is_pending page.session

unfoldable pub start_label : LoginPage → String
start_label page = if page.starting then "正在前往钉钉…" else "使用钉钉登录"

unfoldable pub shows_session_alert : LoginPage → Bool
shows_session_alert page = elim page.session [
  | failed message ↦ not (message == "unauthenticated")
  | _ ↦ false
]
