-- ===== src/Api.antt =====
-- web/src/api.ts: the requests that the client sends, and how it reads a response. `encode` stands
-- for `encodeURIComponent`, `key` for the identifier that `crypto.randomUUID` makes.
pub mod Filters
pub mod Contract
pub mod Calls
mod Examples
use profit_decision_engine.Prelude.{
  String, ℕ, List, [], ◌∷◌, Option, none, some, Bool, true, false, ◌+++◌, eqb, or_else,
  if◌then◌else◌,
}
use profit_decision_engine.Prelude.Decimal.{to_decimal}
use profit_decision_engine.Prelude.Query.{Params}
use profit_decision_engine.Json.{Json, Fields, field, end, str, num, bool, null}
use profit_decision_engine.Access.Router.{login_address}
use profit_decision_engine.Schema.{ConflictLatest, ErrorResponse}
use profit_decision_engine.Api.Filters.{
  ActionFilters, HistoryFilters, list_actions_query, list_history_query, list_batches_query,
}

pub data Body : Type 0 where
  no_body : Body
  form : Params → Body
  json : Fields → Body

-- A request: every one sends the session cookie.
pub record Request : Type 0 where
  pub posts : Bool
  pub path : String
  pub query : Params
  pub body : Body

-- What a call ends with. `signed_out` carries the address that the page is replaced to.
pub data Answer {ℓ} (A : Type ℓ) : Type ℓ where
  ok : A → Answer A
  signed_out : String → Answer A
  business_error : String → Option ConflictLatest → Answer A

-- A response: its status, what its body decodes to as a success, and as an error (`none` when it
-- is not JSON).
pub record Response {ℓ} (A : Type ℓ) : Type ℓ where
  pub status : ℕ
  pub is_ok : Bool
  pub value : A
  pub error_body : Option ErrorResponse

abbrev pub business_error_of {ℓ} : {A : Type ℓ} → Option ErrorResponse → Answer A
business_error_of none = business_error "service_unavailable" none
business_error_of (some b) = business_error (or_else b.error "service_unavailable") b.latest

-- `businessResponse`; `here` is the path and query of the page.
unfoldable pub business_response {ℓ} :
    {A : Type ℓ} → (String → String) → String → Response A → Answer A
business_response encode here response =
    if eqb response.status 401
    then signed_out (login_address encode here)
    else if response.is_ok
    then ok response.value
    else business_error_of response.error_body

abbrev get : String → Params → Request
get path query = record { posts = false; path = path; query = query; body = no_body }

abbrev post : String → Fields → Request
post path body = record { posts = true; path = path; query = []; body = json body }

abbrev number_field : String → ℕ → Fields → Fields
number_field name n rest = field name (num (to_decimal n)) rest

abbrev keyed : String → Fields
keyed key = field "idempotency_key" (str key) end

abbrev pub nullable : Option String → Json
nullable none = null
nullable (some text) = str text

abbrev pub nullable_number : Option String → Json
nullable_number none = null
nullable_number (some text) = num text

abbrev pub list_batches : ℕ → ℕ → String → Request
list_batches page limit search = get "/api/batches" (list_batches_query page limit search)

abbrev pub list_actions : ActionFilters → Request
list_actions filters = get "/api/actions" (list_actions_query filters)

abbrev pub list_history : HistoryFilters → Request
list_history filters = get "/api/history" (list_history_query filters)

abbrev pub get_workbench : Request
get_workbench = get "/api/workbench" []

pub record CreateBatchInput : Type 0 where
  pub business_unit : String
  pub period_start : String
  pub period_end : String
  pub cutoff_date : String
  pub file : String

-- `createBatch`; the file stands for its contents.
abbrev pub create_batch : CreateBatchInput → Request
create_batch input = record {
  posts = true;
  path = "/api/batches";
  query = [];
  body = form (
      ("business_unit", input.business_unit)
      ∷ ("period_start", input.period_start)
      ∷ ("period_end", input.period_end)
      ∷ ("business_cutoff_date", input.cutoff_date)
      ∷ ("xlsx_file", input.file)
      ∷ []);
}

pub data ReviewDecision : Type 0 where
  approve reject : ReviewDecision

abbrev pub decision_text : ReviewDecision → String
decision_text approve = "approved"
decision_text reject = "rejected"

pub data Track : Type 0 where
  business inventory : Track

abbrev pub track_text : Track → String
track_text business = "business"
track_text inventory = "inventory"

pub data ClearanceDecision : Type 0 where
  confirmed returned : ClearanceDecision

abbrev pub clearance_path : ClearanceDecision → String
clearance_path confirmed = "confirm"
clearance_path returned = "return"

-- `ResultSubmission`; a figure is its decimal text.
pub record ResultSubmission : Type 0 where
  pub period_start : String
  pub period_end : String
  pub sales_value : Option String
  pub profit_value : Option String
  pub inventory_value : Option String
  pub sales_unavailable : Bool
  pub profit_unavailable : Bool
  pub inventory_unavailable : Bool
  pub note : String
  pub version : ℕ

module _ (encode : String → String) where
  abbrev suggestion_path : String → String → String
  suggestion_path id rest = "/api/suggestions/" +++ (encode id +++ rest)

  abbrev action_path : String → String → String
  action_path id rest = "/api/actions/" +++ (encode id +++ rest)

  abbrev pub get_batch : String → Request
  get_batch id = get ("/api/batches/" +++ encode id) []

  abbrev pub get_suggestion : String → Bool → Request
  get_suggestion id history_mode =
      get (suggestion_path id "") (if history_mode then ("mode", "history") ∷ [] else [])

  abbrev pub review_suggestion : String → String → ReviewDecision → String → ℕ → Request
  review_suggestion key id decision note review_version = post (suggestion_path id "/review") (
      field "decision" (str (decision_text decision))
        (field "note" (str note) (number_field "review_version" review_version (keyed key))))

  abbrev pub execute_action : String → String → Track → ℕ → String → Request
  execute_action key id track version note = post (action_path id "/execute") (
      field "track" (str (track_text track))
        (number_field "version" version (field "note" (str note) (keyed key))))

  abbrev pub record_action_result : String → String → ResultSubmission → Request
  record_action_result key id input = post (action_path id "/result") (
      field "period_start" (str input.period_start) (
        field "period_end" (str input.period_end) (
          field "sales_value" (nullable_number input.sales_value) (
            field "profit_value" (nullable_number input.profit_value) (
              field "inventory_value" (nullable_number input.inventory_value) (
                field "sales_unavailable" (bool input.sales_unavailable) (
                  field "profit_unavailable" (bool input.profit_unavailable) (
                    field "inventory_unavailable" (bool input.inventory_unavailable) (
                      field "note" (str input.note)
                        (number_field "version" input.version (keyed key)))))))))))

  abbrev pub override_suggestion : String → String → String → Option String → String → ℕ → Request
  override_suggestion key id business_action inventory_action reason version =
      post (suggestion_path id "/override") (
        field "business_action" (str business_action) (
          field "inventory_action" (nullable inventory_action)
            (field "reason" (str reason) (number_field "version" version (keyed key)))))

  abbrev pub terminate_suggestion : String → String → String → ℕ → Request
  terminate_suggestion key id reason version =
      post (suggestion_path id "/terminate")
        (field "reason" (str reason) (number_field "version" version (keyed key)))

  -- `submitClearanceCompletion`; `instant` is `new Date(actualCompletedAt).toISOString()`.
  abbrev pub submit_clearance_completion : String → String → String → String → ℕ → Request
  submit_clearance_completion key id instant note version =
      post (action_path id "/clearance-completion") (
        field "actual_completed_at" (str instant)
          (field "note" (str note) (number_field "version" version (keyed key))))

  abbrev pub review_clearance_completion :
      String → String → ClearanceDecision → String → ℕ → Request
  review_clearance_completion key id decision reason version =
      post (action_path id ("/" +++ clearance_path decision))
        (field "reason" (str reason) (number_field "version" version (keyed key)))

  abbrev pub send_oa_notification : String → String → String → Request
  send_oa_notification id recipient feedback_request = post (action_path id "/oa-notifications") (
      field "recipient_user_id" (str recipient)
        (field "feedback_request" (str feedback_request) end))

  abbrev pub retry_oa_notification : String → String → String → Request
  retry_oa_notification key id notification =
      post (action_path id ("/oa-notifications/" +++ (encode notification +++ "/retry")))
        (keyed key)

  abbrev pub retry_ai_explanation : String → String → Request
  retry_ai_explanation key id = post (suggestion_path id "/ai-retry") (keyed key)
