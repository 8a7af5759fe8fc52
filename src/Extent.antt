-- ===== src/Extent.antt =====
-- The extent service: extent_protocol.h, extent_server.cc and extent_client.cc.
-- A status other than OK is a `Failure`: one of the protocol's, or one of the RPC library's.
pub mod Server
pub mod Client
mod Tests
