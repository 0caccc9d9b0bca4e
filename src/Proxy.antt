-- ===== src/Proxy.antt =====
-- internal/proxy: the upstream pool, the rate limiter, the request path.
pub mod Pool
pub mod Limiter
pub mod Request
pub mod Paths
pub mod Router
pub mod Writer
pub mod Answer
