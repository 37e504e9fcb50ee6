-- ===== src/Supplement/Client.antt =====
-- api.ts: the headers of a request, and how a response is read. The token that the module keeps is
-- passed on as state.
use profit_decision_engine.Prelude.{
  String, ℕ, Option, none, some, Bool, true, false, not, ◌&&◌, ◌==◌, ◌≡◌, refl, truthy, or_else,
  eqb, lookup, if◌then◌else◌,
}
use profit_decision_engine.Prelude.Query.{Params, set, lookup-set_self, lookup-set_other}
use profit_decision_engine.Json.{Json, str, obj, member}
use profit_decision_engine.Supplement.Data.{AuthStatus}

pub record RequestInit : Type 0 where
  pub method : Option String
  pub headers : Params
  pub is_form : Bool

abbrev is_write : Option String → Bool
is_write none = false
is_write (some method) = truthy method && not (method == "GET")

-- The headers that `api` sends; names are compared as written.
unfoldable pub headers_of : String → RequestInit → Params
headers_of token init =
    let headers =
      if init.is_form then init.headers else set "Content-Type" "application/json" init.headers in
    if is_write init.method && truthy token then set "X-CSRF-Token" token headers else headers

pub record ApiError : Type 0 where
  pub status : ℕ
  pub code : String
  pub message : String

-- What the body of an error has under `detail`, and a text field of it.
abbrev pub detail_of : Option Json → Option Json
detail_of (some (obj fields)) = member "detail" fields
detail_of _ = none

abbrev as_text : Option Json → Option String
as_text (some (str s)) = some s
as_text _ = none

abbrev pub text_field : String → Option Json → Option String
text_field name (some (obj fields)) = as_text (member name fields)
text_field name _ = none

-- A response: status, `ok`, and its body, `none` when it is not JSON.
pub record ApiResponse : Type 0 where
  pub status : ℕ
  pub is_ok : Bool
  pub body : Option Json

pub data Result : Type 0 where
  returned : Option Json → Result
  thrown : ApiError → Result

abbrev pub body_of : ApiResponse → Option Json
body_of response = if eqb response.status 204 then none else response.body

unfoldable pub read_response : ApiResponse → Result
read_response response =
    let body = body_of response in
    if response.is_ok
    then returned body
    else thrown (record {
      status = response.status;
      code = or_else (text_field "code" (detail_of body)) "REQUEST_FAILED";
      message = or_else (text_field "message" (detail_of body)) "请求失败，请稍后重试。";
    })

-- `setCsrfToken`, which `loadAuth` calls with the token of the status
abbrev pub set_csrf_token : Option String → String → String
set_csrf_token value token = or_else value ""

abbrev pub load_auth : AuthStatus → String → String
load_auth status token = set_csrf_token status.csrf_token token

-- After the status is loaded with a token, every request with a method other than GET carries that
-- token, whatever its headers were; without a token, the header is the one that the caller gave.
pub headers_of-load_auth :
    (status : AuthStatus) (old t : String) (method : String) (init : RequestInit)
    → init.method ≡ some method
    → truthy method ≡ true
    → (method == "GET") ≡ false
    → (status.csrf_token ≡ some t
        → truthy t ≡ true
        → lookup "X-CSRF-Token" (headers_of (load_auth status old) init) ≡ some t)
      × (status.csrf_token ≡ none
          → lookup "X-CSRF-Token" (headers_of (load_auth status old) init)
            ≡ lookup "X-CSRF-Token" init.headers)
unfolding headers_of
headers_of-load_auth status old t method init m h k = (
  (λ e q.
      rw (e, m)
        (rw (h, k, q)
          (lookup-set_self "X-CSRF-Token" t (
            if init.is_form
            then init.headers
            else set "Content-Type" "application/json" init.headers)))),
  (λ e. rw (e, m) (rw (h, k) (kept init.is_form))),
)
  where
    kept :
        (b : Bool)
        → lookup "X-CSRF-Token"
            (if b then init.headers else set "Content-Type" "application/json" init.headers)
          ≡ lookup "X-CSRF-Token" init.headers
    kept true = refl
    kept false = lookup-set_other "X-CSRF-Token" "Content-Type" "application/json" init.headers refl
