-- ===== src/WorkspaceController.antt =====
-- pkg/controllers/workspace_controller.go and the objects that it creates.
pub mod Resources
pub mod Approvals
pub mod State
pub mod Manage
pub mod Reconcile
pub mod Keeps
pub mod Chain
pub mod Ready
pub mod Backups
