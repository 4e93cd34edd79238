-- ===== src/Proxy.antt =====
-- internal/proxy: the HTTP server in front of Bedrock.
pub mod Path
pub mod Limiter
pub mod Http
pub mod Invoke
pub mod Render
pub mod Server
