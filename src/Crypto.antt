-- ===== src/Crypto.antt =====
-- src/crypto: the JSON Web Tokens of a login.
pub mod Jwt
