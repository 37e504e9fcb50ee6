-- ===== src/Access/Router.antt =====
-- web/src/App.tsx: which page a path opens. `decode` stands for `decodeURIComponent`, which throws
-- (`none`) on a malformed escape.
pub mod Links
use Prim.Native.String
use profit_decision_engine.Prelude.{
  String, Option, none, some, Bool, true, false, not, ◌&&◌, ◌==◌, starts_with, includes, truthy,
  slice_from, if◌then◌else◌, ℕ, ◌+++◌,
}
use profit_decision_engine.Access.Session.{BusinessRole, operations, supervisor}

pub data Page : Type 0 where
  login recovery batch_list new_batch action_list history protected_placeholder : Page
  workbench : BusinessRole → Page
  suggestion_detail batch_detail : String → Page
  crashed : Page

-- `path.match(/^PREFIX([^/]+)$/)`, for a prefix of `n` characters
abbrev pub segment_after : String → ℕ → String → Option String
segment_after prefix n path =
    let rest = slice_from n path in
    if starts_with path prefix && (truthy rest && not (includes rest "/")) then some rest else none

-- The page of a decoded identifier.
abbrev opened : (String → Page) → Option String → Page
opened page (some id) = page id
opened page none = crashed

module _ (decode : String → Option String) where
  abbrev detail_of : Option String → Page
  detail_of (some text) = opened batch_detail (decode text)
  detail_of none = protected_placeholder

  abbrev suggestion_or : Option String → Page → Page
  suggestion_or (some text) other = opened suggestion_detail (decode text)
  suggestion_or none other = other

  unfoldable pub app : String → Page
  app path =
      if path == "/login"
      then login
      else if path == "/auth/recovery"
      then recovery
      else if path == "/batches"
      then batch_list
      else if path == "/batches/new"
      then new_batch
      else if path == "/workbench/operations"
      then workbench operations
      else if path == "/workbench/supervisor"
      then workbench supervisor
      else if path == "/actions"
      then action_list
      else if path == "/history"
      then history
      else suggestion_or (segment_after "/suggestions/" 13 path)
          (detail_of (segment_after "/batches/" 9 path))

-- `ProtectedPlaceholder` and the 401 branch of `businessResponse`: where the page is replaced to.
unfoldable pub login_address : (String → String) → String → String
login_address encode return_to = "/login?return_to=" +++ encode return_to
