-- ===== src/Supplement.antt =====
-- The frontend of the supplementary delivery (趣然AI商品经营利润决策助手/frontend/src): its data, its
-- API client, its status tags and the shell around its pages.
pub mod Data
pub mod Client
pub mod Shell
pub mod StatusTag
pub mod Texts
pub mod Routes
pub mod Detail
pub mod Options
pub mod Login
pub mod Forbidden
pub mod Workspace
pub mod Batches
pub mod Trace
pub mod Actions
mod Samples
mod Examples
mod DetailExamples
mod ListExamples
