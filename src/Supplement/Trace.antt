-- ===== src/Supplement/Trace.antt =====
-- pages/TracePage.tsx of the supplementary frontend.
pub mod View
pub mod Filters
