-- ===== src/Access/Session.antt =====
-- The session types of web/src/generated/api.ts and `getSession` of web/src/api.ts.
use profit_decision_engine.Prelude.{String, ℕ, Bool, true, false, eqb, if◌then◌else◌}

pub data BusinessRole : Type 0 where
  operations supervisor : BusinessRole

pub record SessionUser : Type 0 where
  pub name : String
  pub role : BusinessRole

-- `role === 'supervisor'`
abbrev pub is_supervisor : BusinessRole → Bool
is_supervisor supervisor = true
is_supervisor operations = false

-- `role === 'supervisor' ? '/workbench/supervisor' : '/workbench/operations'`
abbrev pub workbench_path : BusinessRole → String
workbench_path role =
    if is_supervisor role then "/workbench/supervisor" else "/workbench/operations"

-- What a query of the cache holds: no answer yet, a failure by its message, or a value.
pub data Query {ℓ} (A : Type ℓ) : Type ℓ where
  pending : Query A
  failed : String → Query A
  loaded : A → Query A

-- `getSession`: a status of the response and its decoded body.
unfoldable pub get_session {ℓ} : {A : Type ℓ} → Bool → ℕ → A → Query A
get_session is_ok status body =
    if is_ok
    then loaded body
    else failed (if eqb status 401 then "unauthenticated" else "service_unavailable")
