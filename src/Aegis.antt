-- ===== src/Aegis.antt =====
-- crates/aegis: which tenant and which role a token stands for.
pub mod Catalogue
pub mod Validator
pub mod Accepts
pub mod Distinct
pub mod Samples
mod Examples
