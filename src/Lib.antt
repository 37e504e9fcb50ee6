-- ===== src/Lib.antt =====
-- The web client of the profit decision engine: what its pages decide, send and show.
--
-- The client (web/src) is a set of pages over one API. App.tsx picks a page by the path, api.ts
-- sends the requests of the pages and redirects to the login on a 401, and each page keeps its
-- filters or form fields as state, mirrors them in the address, and turns user events into requests.
-- The rules that produce the decisions run on the server and are not part of the client.
--
-- Which file models which part:
--   Prelude        shared names; texts and lists with their laws; Prelude.Decimal is `String(n)` and
--                  `Number(text)`, Prelude.NumberOrder compares numbers, Prelude.Query and
--                  Prelude.QueryWrites are URLSearchParams
--   Json           values of unknown type
--   Schema         generated/api.ts: the records that the API answers with
--   Batches        pages/actionBatchOrdering.ts: latestReadyBatch is latest_ready_batch
--   Api            api.ts: one function per request, business_response for businessResponse;
--                  Api.Filters has the filters and the queries built from them, Api.Contract the
--                  paths and input schemas of generated/api.ts, Api.Calls the commands as data
--   Access         App.tsx (Access.Router), pages/LoginPage.tsx and safeHistoryReturn of
--                  pages/SuggestionDetailPage.tsx (Access.Login), pages/RecoveryPage.tsx
--                  (Access.Recovery); Access.Origin says when an address names another host
--   Explanation    aiExplanation.ts: formatAIExplanation is format_ai_explanation
--   ActionList     pages/ActionListPage.tsx: initialFilters, the effect that writes the address
--                  (page_query), update, and what is shown of batches and pages
--   History        pages/HistoryPage.tsx: initialFilters, toQuery, submit, reset, apply, milestones
--   Suggestion     pages/SuggestionDetailPage.tsx: conflictFeedback (Suggestion.Feedback),
--                  OperationsPanel and SupervisorLifecyclePanel (Suggestion.Operations,
--                  Suggestion.Supervisor), the review form and the page as one step function over
--                  events (Suggestion.Page); a handler returns the request it sends beside the state;
--                  labels and the status overview (Suggestion.Labels)
--   Workbench      pages/WorkbenchPage.tsx: filteredItems with its order, the redirect of the other
--                  role, risks, recent reviews; its texts and tables (Workbench.View) and its links
--                  into the action list (Workbench.Links)
--   BatchPages     pages/BatchListPage.tsx and pages/BatchDetailPage.tsx: polling, current batch and
--                  history, search and paging, the form for a new batch, processSteps; their texts and
--                  tables (BatchPages.View)
--   ActionTable    components/ActionTable.tsx and components/AppShell.tsx: labels and navigation; the
--                  rows of the two tables and the expanded ones (ActionTable.Rows)
--   Supplement     the frontend of the supplementary delivery
--                  (趣然AI商品经营利润决策助手/frontend/src): types.ts (Supplement.Data), api.ts
--                  (Supplement.Client), components/AppShell.tsx (Supplement.Shell),
--                  components/StatusTag.tsx (Supplement.StatusTag), main.tsx with
--                  components/AuthContext.tsx (Supplement.Routes), and one part for each page:
--                  DecisionDetailPage.tsx (Supplement.Detail: display to traceEventLabel in Format,
--                  the two forms and mutations as a step function in Forms, the cards in View, Cards
--                  and Body), ActionListPage.tsx (Supplement.Actions, and Supplement.Options for
--                  uniqueOptions), TracePage.tsx (Supplement.Trace), BatchListPage.tsx,
--                  BatchDetailPage.tsx and BatchImportPage.tsx (Supplement.Batches), WorkspacePage.tsx,
--                  LoginPage.tsx and ForbiddenPage.tsx (Supplement.Workspace, Login and Forbidden);
--                  Supplement.Texts has the filters and tags that these pages share
-- Under most parts, modules named for a subject hold the proofs, and Examples the tests and the
-- theorems at concrete inputs.
--
-- Texts are sequences of code points. A field that may be null or absent is an Option, a figure is
-- its decimal text. `Number` and `String` of a number are exact (Prelude.Decimal): whole numbers,
-- decimal fractions, exponents, infinities and the bases 16, 8 and 2; what a double rounds or
-- overflows, and the printing with an exponent of very large and very small numbers, are left out.
-- Percent-encoding of a query is left to the browser. `encodeURIComponent`, `decodeURIComponent`,
-- `JSON.parse`, the texts of members that every object inherits, `crypto.randomUUID` and local dates
-- are parameters. A state of the API is taken to be none of the inherited names. The formatting of an
-- explanation recurses through texts that parse to further values; it is written by rounds, and two
-- rounds are enough because texts from depth two on are not parsed.
--
-- Pages are shown as the texts, tags, columns and links that they have; a step function takes what
-- happens to the new state and to the request that is sent. The controls of the component library do
-- what its documentation says: a button that is loading is not pressed, a form calls its handler when
-- its rules pass, and a pagination offers the pages up to its total.
--
-- Not modelled: icons, layout and styles, the query cache and its timing, tests, build settings, the
-- generators of documents and slides, the server (Go and Python).
pub mod Prelude
pub mod Json
pub mod Batches
pub mod Schema
pub mod Api
pub mod Access
pub mod Explanation
pub mod ActionList
pub mod History
pub mod Suggestion
pub mod Workbench
pub mod BatchPages
pub mod Supplement
pub mod ActionTable
