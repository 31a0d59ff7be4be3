-- ===== src/Controller.antt =====
-- internal/controller: the reconciler of TrafficPolicy resources.
pub mod Spec
pub mod Initial
pub mod Strategy
pub mod Journal
pub mod Recorder
pub mod Env
pub mod Sampling
pub mod Endings
pub mod Reconcile
pub mod TestData
pub mod Examples
