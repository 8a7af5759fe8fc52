-- ===== src/Lock.antt =====
-- The caching lock service: lock_server_cache.cc, lock_client_cache.cc and lock_protocol.h.
pub mod Server
pub mod Client
pub mod Plain
pub mod System
mod Tests
