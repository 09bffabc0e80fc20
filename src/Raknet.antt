-- ===== src/Raknet.antt =====
-- src/raknet: the RakNet protocol and the server's sessions.
pub mod Protocol
pub mod Server
