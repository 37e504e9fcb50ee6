-- ===== src/Supplement/Actions.antt =====
-- pages/ActionListPage.tsx of the supplementary frontend.
pub mod View
pub mod Cards
pub mod Pages
pub mod Offered
