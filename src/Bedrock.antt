-- ===== src/Bedrock.antt =====
-- src/bedrock: the packets inside the RakNet payloads.
pub mod Batch
pub mod Skin
pub mod Version
pub mod Login
pub mod Responses
