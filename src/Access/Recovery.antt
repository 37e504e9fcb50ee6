-- ===== src/Access/Recovery.antt =====
-- web/src/pages/RecoveryPage.tsx: which notice is shown, and where its button leads. The page reads
-- `states[key]` with a key from the address, and such a read also finds what every object inherits.
pub mod Laws
use profit_decision_engine.Prelude.{
  String, List, [], ◌∷◌, Option, none, some, Bool, true, false, lookup, elem, truthy, or_else, ◌==◌,
  ◌+++◌, if◌then◌else◌,
}

pub record Notice : Type 0 where
  pub title : String
  pub body : String
  pub action : String

abbrev pub auth_failed : Notice
auth_failed = record { title = "未能完成身份认证"; body = "本次钉钉认证没有建立有效登录状态，请重新认证。"; action = "重新使用钉钉认证" }

abbrev pub states : List (String × Notice)
states =
    ("auth_failed", auth_failed)
    ∷ (
      "session_expired",
      record { title = "登录状态已失效"; body = "为保护经营数据，请重新确认本人身份后继续。"; action = "重新认证并返回" },
    )
    ∷ (
      "no_role",
      record {
        title = "当前身份尚未配置业务角色";
        body = "系统已确认身份，但没有找到唯一有效角色。请联系运维或系统管理员核对审批配置。";
        action = "重新确认身份";
      },
    )
    ∷ (
      "forbidden",
      record { title = "当前身份无法访问此内容"; body = "系统不会展示目标对象的任何信息。请返回本人工作台继续。"; action = "返回我的工作台" },
    )
    ∷ (
      "network",
      record { title = "认证服务暂时不可用"; body = "当前无法连接钉钉认证服务，请稍后重试或联系运维。"; action = "重新尝试" },
    )
    ∷ []

-- What an object literal inherits from `Object.prototype`.
abbrev pub inherited_names : List String
inherited_names =
    "constructor" ∷ "toString" ∷ "valueOf" ∷ "hasOwnProperty" ∷ "isPrototypeOf"
    ∷ "propertyIsEnumerable" ∷ "toLocaleString" ∷ "__proto__" ∷ "__defineGetter__"
    ∷ "__defineSetter__" ∷ "__lookupGetter__" ∷ "__lookupSetter__" ∷ []

-- The value of `object[key]`.
pub data Property {ℓ} (A : Type ℓ) : Type ℓ where
  own : A → Property A
  inherited : Property A
  missing : Property A

abbrev pub property_of {ℓ} : {A : Type ℓ} → Bool → Option A → Property A
property_of is_inherited (some a) = own a
property_of true none = inherited
property_of false none = missing

abbrev pub property {ℓ} : {A : Type ℓ} → String → List (String × A) → Property A
property key fields = property_of (elem key inherited_names) (lookup key fields)

-- `state`; `none` is an inherited member, whose `title`, `body` and `action` are undefined.
abbrev chosen : Property Notice → Option Notice
chosen (own notice) = some notice
chosen inherited = none
chosen missing = some auth_failed

unfoldable pub recovery_notice : Option String → Option Notice
recovery_notice none = some auth_failed
recovery_notice (some key) = if truthy key then chosen (property key states) else some auth_failed

-- The paragraph below the title.
unfoldable pub recovery_lead : Option String → Notice → String
recovery_lead key notice =
    if or_else key "" == "session_expired"
    then "为保护受控信息，长时间未操作后当前会话已安全结束。完成钉钉认证后，系统会重新校验访问权限，并尝试返回您原先有权访问的位置。"
    else notice.body

-- `act`: the address that the button assigns.
unfoldable pub act : (String → String) → Option String → Option String → String
act encode key return_to =
    if or_else key "" == "forbidden"
    then "/"
    else "/auth/dingtalk/start?return_to=" +++ encode (or_else return_to "/")
