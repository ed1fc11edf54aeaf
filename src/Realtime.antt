-- ===== src/Realtime.antt =====
-- framework/realtime: the buffer for a client that comes back, and the channel router.
pub mod Resume
pub mod Router
