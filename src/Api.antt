-- ===== src/Api.antt =====
-- api/v1alpha1/trafficpolicy_types.go: the TrafficPolicy resource.
pub mod Types
pub mod Schema
pub mod WeightMap
pub mod DeepCopy
