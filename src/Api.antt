-- ===== src/Api.antt =====
-- api/v1alpha1: the custom resources, as far as the operator's code reads or writes them.
pub mod Meta
pub mod Scheme
pub mod Memory
pub mod DeepCopy
pub mod Endpoint
pub mod Guardrail
pub mod Template
