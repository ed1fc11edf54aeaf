-- ===== src/Middleware.antt =====
-- framework/middleware/cors.go. The rate limiter of the same package has its own module.
pub mod Cors
pub mod Examples
