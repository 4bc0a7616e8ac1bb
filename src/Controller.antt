-- ===== src/Controller.antt =====
-- internal/controller/gpupool_controller.go: one child for each concern of the reconciler.
pub mod Client
pub mod Resources
pub mod Status
pub mod Nodes
pub mod Slices
pub mod Reconcile
