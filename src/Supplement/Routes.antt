-- ===== src/Supplement/Routes.antt =====
-- main.tsx and components/AuthContext.tsx: the routes, and what the pages learn of the session.
-- `matches` stands for the pattern matching of the router: the parameters of a path that fits.
use profit_decision_engine.Prelude.{String, List, [], ◌∷◌, Option, none, some, Bool, true, false}
use profit_decision_engine.Access.Session.{Query, pending, failed, loaded}
use profit_decision_engine.Supplement.Data.{AuthStatus}

pub data SupplementPage : Type 0 where
  workspace action_list decision_detail batch_list batch_import batch_detail trace : SupplementPage
  login forbidden : SupplementPage

pub data Target : Type 0 where
  component : SupplementPage → Target
  redirect : String → Target

-- The routes of `BusinessRoutes`, tried in order; a path that none fits is redirected.
abbrev pub business_routes : List (String × Target)
business_routes =
    ("/workspace", component workspace)
    ∷ ("/actions/:decisionId", component decision_detail)
    ∷ ("/actions", component action_list)
    ∷ ("/batches/new", component batch_import)
    ∷ ("/batches/:batchId", component batch_detail)
    ∷ ("/batches", component batch_list)
    ∷ ("/trace", component trace)
    ∷ ("/", redirect "/workspace")
    ∷ []

-- The routes of `Application` in front of the business routes.
abbrev pub public_routes : List (String × Target)
public_routes = ("/login", component login) ∷ ("/forbidden", component forbidden) ∷ []

module _ (matches : String → String → Option (List String)) where
  abbrev or_first :
      Option (List String) → Target → Option (Target × List String) → Option (Target × List String)
  or_first none target rest = rest
  or_first (some values) target rest = some (target, values)

  abbrev first_match : String → List (String × Target) → Option (Target × List String)
  first_match path [] = none
  first_match path ((pattern_, target) ∷ routes) =
      or_first (matches pattern_ path) target (first_match path routes)

  abbrev or_else_match : Option (Target × List String) → Target × List String → Target × List String
  or_else_match none other = other
  or_else_match (some found) other = found

  -- What a path shows or where it redirects, with the parameters of the path.
  unfoldable pub application : String → Target × List String
  application path =
      or_else_match (first_match path public_routes)
        (or_else_match (first_match path business_routes) (redirect "/forbidden", []))

-- What `AuthProvider` passes on: the status, and whether it is still loading.
pub record AuthContextValue : Type 0 where
  pub status : Option AuthStatus
  pub loading : Bool

unfoldable pub auth_value : Query AuthStatus → AuthContextValue
auth_value pending = record { status = none; loading = true }
auth_value (failed message) = record { status = none; loading = false }
auth_value (loaded answer) = record { status = some answer; loading = false }
