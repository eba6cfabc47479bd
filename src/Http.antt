-- ===== src/Http.antt =====
-- What stands around the handlers: src/shared/interceptors/audit.interceptor.ts (Audited) and
-- src/shared/filters/all-exceptions.filter.ts (Errors).
pub mod Json
pub mod Audited
pub mod Errors
