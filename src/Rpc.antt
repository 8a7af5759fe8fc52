-- ===== src/Rpc.antt =====
-- The RPC library under rpc/.
pub mod Channel
pub mod Status
pub mod ReplyWindow
pub mod XidWindow
pub mod Marshall
pub mod Connection
pub mod Fifo
pub mod Pdu
pub mod Link
pub mod Poll
pub mod Caller
pub mod Timespec
pub mod ThrPool
pub mod Dispatch
pub mod Stub
mod Tests
