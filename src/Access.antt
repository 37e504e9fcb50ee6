-- ===== src/Access.antt =====
-- Who may go where in web/: the session (api.ts, generated/api.ts), the login and recovery pages,
-- the router of App.tsx and the addresses that the pages return to.
pub mod Session
pub mod Origin
pub mod Login
pub mod Recovery
pub mod Router
mod Examples
