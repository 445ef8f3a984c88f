-- ===== src/Jwt.antt =====
-- The library that signs and reads the JSON web tokens, for the service's key pair.
pub mod Interface
pub mod Serial
pub mod Plain
