-- ===== src/Supplement/Batches.antt =====
-- The pages of the batches of the supplementary frontend: BatchListPage.tsx (Listing),
-- BatchDetailPage.tsx (Detail) and BatchImportPage.tsx (Import; Confirmed has its proofs).
pub mod Listing
pub mod Detail
pub mod Import
pub mod Confirmed
