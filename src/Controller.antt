-- ===== src/Controller.antt =====
-- internal/controller: the reconcilers and their helpers.
pub mod Conditions
pub mod Labels
pub mod Cluster
pub mod Endpoint
pub mod Guardrail
pub mod Template
