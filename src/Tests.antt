-- ===== src/Tests.antt =====
-- Concrete runs of the definitions, and the theorems at concrete inputs.
mod Wire
mod Server
mod Frames
mod Acks
mod Replies
mod Jwt
mod Skin
mod Config
mod Login
mod Dispatch
mod Stun
