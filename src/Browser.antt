-- ===== src/Browser.antt =====
-- What the browser bridge decides without a browser (backend/app/browser).
pub mod Sanitizer
pub mod Verifier
