-- ===== src/Owners.antt =====
-- The owners of the workspaces through every use case that writes workspaces or members:
-- src/modules/workspaces, src/modules/invitations, and those that register and create users.
pub mod Steps
pub mod Kept
pub mod Signup
pub mod Reached
