-- ===== src/Workbench/Laws.antt =====
-- The redirect between the two workbenches ends.
use profit_decision_engine.Prelude.{String, Option, none, some, ◌≡◌, refl, arith, subst}
use profit_decision_engine.Access.Session.{
  BusinessRole, operations, supervisor, loaded, workbench_path,
}
use profit_decision_engine.Access.Router.{app, workbench}
use profit_decision_engine.Schema.{Workbench}
use profit_decision_engine.Workbench.{role_redirect}

app-workbench_path :
    (decode : String → Option String) (role : BusinessRole)
    → app decode (workbench_path role) ≡ workbench role
unfolding app
app-workbench_path decode operations = refl
app-workbench_path decode supervisor = refl

same_role_stays :
    (role : BusinessRole) (w : Workbench) → w.role ≡ role → role_redirect role (loaded w) ≡ none
unfolding role_redirect
same_role_stays operations w e = rw e refl
same_role_stays supervisor w e = rw e refl

-- If the workbench page redirects, the address opens the workbench of the role that was answered,
-- and that page does not redirect when it gets the same answer.
pub role_redirect-app :
    (decode : String → Option String) (expected : BusinessRole) (w : Workbench) (address : String)
    → role_redirect expected (loaded w) ≡ some address
    → (app decode address ≡ workbench w.role) × (role_redirect w.role (loaded w) ≡ none)
unfolding role_redirect
role_redirect-app decode expected w address e =
    let path : workbench_path w.role ≡ address = ground arith in
    (
      subst (λ a. app decode a ≡ workbench w.role) path (app-workbench_path decode w.role),
      same_role_stays w.role w refl,
    )
