-- ===== src/Translation.antt =====
-- The translation of texts of web sites, platform/app/services/translation_service.py.
pub mod Model
pub mod Batches
pub mod Served
pub mod Approval
pub mod Placeholders
pub mod Requests
pub mod Serve
pub mod Cases
