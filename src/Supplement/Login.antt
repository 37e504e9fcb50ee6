-- ===== src/Supplement/Login.antt =====
-- pages/LoginPage.tsx of the supplementary frontend.
use profit_decision_engine.Prelude.{
  String, List, [], ◌∷◌, ◌++◌, Option, none, some, Bool, true, false, not, ◌&&◌, ◌||◌, ◌==◌, truthy,
  lookup, if◌then◌else◌,
}
use profit_decision_engine.Prelude.Query.{Params}
use profit_decision_engine.Supplement.Data.{AuthStatus}
use profit_decision_engine.Supplement.Client.{ApiError}

pub record LoginPage : Type 0 where
  pub submitting : Bool
  pub error : String

abbrev pub initial : LoginPage
initial = record { submitting = false; error = "" }

abbrev is_text : Option String → String → Bool
is_text none t = false
is_text (some s) t = s == t

abbrev session_expired : Params → Bool
session_expired params = is_text (lookup "reason" params) "session"

abbrev callback_failed : Params → Bool
callback_failed params = is_text (lookup "error" params) "auth"

abbrev is_authenticated : Option AuthStatus → Bool
is_authenticated none = false
is_authenticated (some status) = status.authenticated

-- The effect: where who is signed in goes.
unfoldable pub redirect : Bool → Option AuthStatus → Option String
redirect loading status = if not loading && is_authenticated status then some "/workspace" else none

-- How the request for a login ends: with an address to go to, or in an error.
pub data Answer : Type 0 where
  address : String → Answer
  api_error : ApiError → Answer
  other_error : Answer

-- A press of the button, or the answer to the request of one.
pub data Event : Type 0 where
  pressed : Event
  answered : Answer → Event

-- A POST to /auth/login, or the browser leaves the page.
pub data Effect : Type 0 where
  nothing request : Effect
  leave : String → Effect

-- `login`, from the press on; a loading button is not pressed.
unfoldable pub step : Bool → Event → LoginPage → LoginPage × Effect
step loading pressed page =
    if page.submitting || loading
    then (page, nothing)
    else (record { submitting = true; error = "" }, request)
step loading (answered (address url)) page = (page, leave url)
step loading (answered (api_error e)) page =
    (record { submitting = false; error = e.message }, nothing)
step loading (answered other_error) page =
    (record { submitting = false; error = "暂时无法发起钉钉登录。" }, nothing)

abbrev guidance : Option AuthStatus → Option String
guidance none = none
guidance (some status) = status.support_guidance

-- `dingtalk_ready === false`
abbrev is_false : Option Bool → Bool
is_false (some false) = true
is_false _ = false

abbrev is_not_ready : Option AuthStatus → Bool
is_not_ready none = false
is_not_ready (some status) = is_false status.dingtalk_ready

-- The alerts: type, message and description.
unfoldable pub alerts :
    Bool → Option AuthStatus → Params → LoginPage → List (String × String × Option String)
alerts loading status params page =
    (if session_expired params then ("warning", "登录状态已失效，请重新使用钉钉登录。", none) ∷ [] else [])
    ++ ((if callback_failed params
          then ("error", "暂时无法完成钉钉登录，请重新尝试。", guidance status) ∷ []
          else [])
        ++ ((if truthy page.error then ("error", page.error, guidance status) ∷ [] else [])
            ++ (if not loading && is_not_ready status
                then ("info", "钉钉登录尚未完成部署配置", guidance status) ∷ []
                else [])))
