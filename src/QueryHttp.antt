-- ===== src/QueryHttp.antt =====
-- crates/query-http-common: what the query servers share.
pub mod Responses
pub mod Bearer
pub mod Carries
pub mod Tenant
pub mod Scope
pub mod TimeRange
pub mod Samples
mod Examples
