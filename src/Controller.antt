-- ===== src/Controller.antt =====
-- internal/controller: the reconciler and its metrics, from
-- internal/controller/gpuworkloadbudget_controller.go and internal/controller/metrics.go.
pub mod Status
pub mod Enforcing
pub mod Reconciler
pub mod Clock
pub mod InPlace
pub mod Draining
pub mod Failing
pub mod Watches
pub mod Tests
