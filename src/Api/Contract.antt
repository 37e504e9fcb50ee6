-- ===== src/Api/Contract.antt =====
-- The endpoints and input schemas that web/src/generated/api.ts declares, and what it means for a
-- request to meet them.
use profit_decision_engine.Prelude.{
  String, ℕ, suc, List, [], ◌∷◌, Option, none, some, Bool, true, false, ◌&&◌, ◌+++◌, ◌++◌, ◌≡◌,
  elem, lookup, length,
}
use profit_decision_engine.Json.{Json, Fields, member, null, bool, num, str, end, field}
use profit_decision_engine.Api.{Request, Body, no_body, json, form}
use profit_decision_engine.Prelude.Query.{Params}

-- A path template: literal text and the places of path parameters.
pub data Segment : Type 0 where
  text : String → Segment
  parameter : Segment

-- The kinds of fields of an input schema.
pub data Kind : Type 0 where
  a_text a_number a_boolean nullable_number : Kind
  one_of nullable_one_of : List String → Kind

pub record Endpoint : Type 0 where
  pub posts : Bool
  pub template : List Segment
  pub schema : Option (List (String × Kind))

abbrev reading : List Segment → Endpoint
reading template = record { posts = false; template = template; schema = none }

abbrev command : List Segment → List (String × Kind) → Endpoint
command template schema = record { posts = true; template = template; schema = some schema }

abbrev keyed : List (String × Kind)
keyed = ("idempotency_key", a_text) ∷ []

abbrev suggestion : String → List Segment
suggestion rest = text "/api/suggestions/" ∷ parameter ∷ text rest ∷ []

abbrev action : String → List Segment
action rest = text "/api/actions/" ∷ parameter ∷ text rest ∷ []

-- `ReviewInput` to `AIRetryInput`
abbrev pub review_input : List (String × Kind)
review_input =
    ("decision", one_of ("approved" ∷ "rejected" ∷ []))
    ∷ ("note", a_text)
    ∷ ("review_version", a_number)
    ∷ keyed

abbrev pub execute_input : List (String × Kind)
execute_input =
    ("track", one_of ("business" ∷ "inventory" ∷ []))
    ∷ ("version", a_number)
    ∷ ("note", a_text)
    ∷ keyed

abbrev pub result_input : List (String × Kind)
result_input =
    ("period_start", a_text)
    ∷ ("period_end", a_text)
    ∷ ("sales_value", nullable_number)
    ∷ ("profit_value", nullable_number)
    ∷ ("inventory_value", nullable_number)
    ∷ ("sales_unavailable", a_boolean)
    ∷ ("profit_unavailable", a_boolean)
    ∷ ("inventory_unavailable", a_boolean)
    ∷ ("note", a_text)
    ∷ ("version", a_number)
    ∷ keyed

abbrev pub business_actions : List String
business_actions = "clearance" ∷ "stop_loss" ∷ "observe" ∷ "invest" ∷ "maintain" ∷ []

abbrev pub inventory_actions : List String
inventory_actions = "restock" ∷ "no_restock" ∷ "prohibit_restock" ∷ []

abbrev pub override_input : List (String × Kind)
override_input =
    ("business_action", one_of business_actions)
    ∷ ("inventory_action", nullable_one_of inventory_actions)
    ∷ ("reason", a_text)
    ∷ ("version", a_number)
    ∷ keyed

abbrev pub terminate_input : List (String × Kind)
terminate_input = ("reason", a_text) ∷ ("version", a_number) ∷ keyed

abbrev pub clearance_submit_input : List (String × Kind)
clearance_submit_input =
    ("actual_completed_at", a_text) ∷ ("note", a_text) ∷ ("version", a_number) ∷ keyed

abbrev pub clearance_decision_input : List (String × Kind)
clearance_decision_input = ("reason", a_text) ∷ ("version", a_number) ∷ keyed

abbrev pub oa_notification_input : List (String × Kind)
oa_notification_input = ("recipient_user_id", a_text) ∷ ("feedback_request", a_text) ∷ []

abbrev pub business_units : List String
business_units = "玩具事业部" ∷ []

-- The fields of the multipart body of `createBatch`
abbrev pub create_batch_input : List (String × Kind)
create_batch_input =
    ("business_unit", one_of business_units)
    ∷ ("period_start", a_text)
    ∷ ("period_end", a_text)
    ∷ ("business_cutoff_date", a_text)
    ∷ ("xlsx_file", a_text)
    ∷ []

-- The endpoints, in the order of the file: those of a GET and the upload, then the commands.
abbrev pub upload_endpoint : Endpoint
upload_endpoint = command (text "/api/batches" ∷ []) create_batch_input

abbrev pub reading_endpoints : List Endpoint
reading_endpoints =
    reading (text "/api/session" ∷ [])
    ∷ reading (text "/api/batches" ∷ [])
    ∷ reading (text "/api/batches/" ∷ parameter ∷ [])
    ∷ reading (text "/api/actions" ∷ [])
    ∷ reading (text "/api/workbench" ∷ [])
    ∷ reading (text "/api/history" ∷ [])
    ∷ reading (text "/api/suggestions/" ∷ parameter ∷ [])
    ∷ []

abbrev pub suggestion_endpoints : List Endpoint
suggestion_endpoints =
    command (suggestion "/review") review_input
    ∷ command (suggestion "/override") override_input
    ∷ command (suggestion "/terminate") terminate_input
    ∷ command (suggestion "/ai-retry") keyed
    ∷ []

abbrev pub action_endpoints : List Endpoint
action_endpoints =
    command (action "/execute") execute_input
    ∷ command (action "/result") result_input
    ∷ command (action "/clearance-completion") clearance_submit_input
    ∷ command (action "/confirm") clearance_decision_input
    ∷ command (action "/return") clearance_decision_input
    ∷ command (action "/oa-notifications") oa_notification_input
    ∷ command
        (text "/api/actions/"
          ∷ parameter
          ∷ text "/oa-notifications/"
          ∷ parameter
          ∷ text "/retry"
          ∷ [])
        keyed
    ∷ []

abbrev pub writing_endpoints : List Endpoint
writing_endpoints = upload_endpoint ∷ (suggestion_endpoints ++ action_endpoints)

-- The path of a template whose parameters are filled in, in order.
abbrev pub fill : List Segment → List String → String
fill [] values = ""
fill (text s ∷ []) values = s
fill (text s ∷ (t ∷ rest)) values = s +++ fill (t ∷ rest) values
fill (parameter ∷ rest) [] = ""
fill (parameter ∷ []) (v ∷ values) = v
fill (parameter ∷ (t ∷ rest)) (v ∷ values) = v +++ fill (t ∷ rest) values

-- The value has the kind.
abbrev pub has_kind : Kind → Json → Bool
has_kind a_text (str s) = true
has_kind a_number (num n) = true
has_kind a_boolean (bool b) = true
has_kind nullable_number (num n) = true
has_kind nullable_number null = true
has_kind (one_of options) (str s) = elem s options
has_kind (nullable_one_of options) (str s) = elem s options
has_kind (nullable_one_of options) null = true
has_kind _ _ = false

abbrev pub size : Fields → ℕ
size end = 0
size (field key value rest) = suc (size rest)

abbrev has_field : Kind → Option Json → Bool
has_field kind none = false
has_field kind (some value) = has_kind kind value

-- Every declared field is there with its kind.
abbrev pub has_all : List (String × Kind) → Fields → Bool
has_all [] fields = true
has_all ((key, kind) ∷ rest) fields = has_field kind (member key fields) && has_all rest fields

abbrev pub count : List (String × Kind) → ℕ
count [] = 0
count (f ∷ rest) = suc (count rest)

-- The same for the entries of a form, which are texts.
abbrev has_entry : Kind → Option String → Bool
has_entry kind none = false
has_entry kind (some value) = has_kind kind (str value)

abbrev pub has_entries : List (String × Kind) → Params → Bool
has_entries [] entries = true
has_entries ((key, kind) ∷ rest) entries =
    has_entry kind (lookup key entries) && has_entries rest entries

abbrev pub BodyMeets : Option (List (String × Kind)) → Body → Type 0
BodyMeets none no_body = Unit
BodyMeets (some schema) (json fields) =
    (has_all schema fields ≡ true) × (size fields ≡ count schema)
BodyMeets (some schema) (form entries) =
    (has_entries schema entries ≡ true) × (length entries ≡ count schema)
BodyMeets _ _ = ⊥

-- A request meets an endpoint: the method, the path for some parameters, and a body with exactly the
-- declared fields.
pub record Meets (e : Endpoint) (values : List String) (r : Request) : Type 0 where
  pub method : r.posts ≡ e.posts
  pub path : r.path ≡ fill e.template values
  pub body : BodyMeets e.schema r.body
