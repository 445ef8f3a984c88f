-- ===== src/Redis.antt =====
-- The Redis server, which is not part of the repository: its interface and laws, and a server in
-- memory that meets them.
pub mod Interface
pub mod Store
pub mod StoreMemory
pub mod Memory
