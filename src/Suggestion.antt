-- ===== src/Suggestion.antt =====
-- web/src/pages/SuggestionDetailPage.tsx: the review form, the panels of both roles, and the page
-- that shows them. A request is sent by returning it beside the new state.
pub mod Feedback
pub mod Operations
pub mod Supervisor
pub mod Page
pub mod Laws
pub mod Allowed
pub mod Commands
pub mod Traces
pub mod Repeats
pub mod Labels
pub mod Samples
mod Examples
