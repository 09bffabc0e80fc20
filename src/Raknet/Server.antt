-- ===== src/Raknet/Server.antt =====
-- src/raknet/server: the sessions of the peers and the reassembly of what they send.
-- A lock is taken for each access and given back before the next await; the model runs one
-- handler at a time. A `Duration` and an `Instant` are numbers of nanoseconds, and a later
-- minus an earlier instant stops at 0, as `Instant::duration_since` does.
pub mod Session
pub mod Ordered
pub mod Split
pub mod Frames
pub mod Acks
pub mod Replies
pub mod Resend
pub mod Bedrock
pub mod Ping
pub mod Dispatch
