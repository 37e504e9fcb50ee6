-- ===== src/Supplement/Detail.antt =====
-- pages/DecisionDetailPage.tsx of the supplementary frontend, by its parts: texts (Format), the forms
-- and their requests (Forms), what is shown (View, Cards, Body), and what the page may send (Sound,
-- Seen, Commands) and how the server sees it (Protocol, Exchange).
pub mod Format
pub mod Forms
pub mod Seen
pub mod Sound
pub mod Commands
pub mod Protocol
pub mod Exchange
pub mod Answers
pub mod View
pub mod Cards
pub mod Body
