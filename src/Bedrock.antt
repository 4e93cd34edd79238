-- ===== src/Bedrock.antt =====
-- internal/bedrock: the AWS clients, inference, health checks and prices.
pub mod Cost
pub mod Client
pub mod Converse
pub mod Health
pub mod Guardrail
