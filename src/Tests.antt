-- ===== src/Tests.antt =====
-- Runs at concrete inputs, and the theorems there.
pub mod Metrics
mod World
pub mod Clients
pub mod Prices
pub mod Admission
pub mod Requests
pub mod Status
pub mod Policies
pub mod Operator
pub mod Callers
pub mod Memory
pub mod Services
pub mod Serving
pub mod Templates
pub mod Lives
pub mod Edits
pub mod Limits
pub mod System
