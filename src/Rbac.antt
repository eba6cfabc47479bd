-- ===== src/Rbac.antt =====
-- Roles and permissions: src/modules/rbac.
pub mod Permissions
pub mod Roles
pub mod Manage
