-- ===== src/RunController.antt =====
-- pkg/controllers/run_controller.go and conditions.go: how a run is queued, gets its pod, and is
-- followed to its end.
pub mod Conditions
pub mod Archive
pub mod Manage
pub mod Reconcile
pub mod Turns
pub mod PodPhases
pub mod Phases
pub mod Keeps
pub mod Pods
pub mod Laws
