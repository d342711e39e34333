-- ===== src/Cache.antt =====
-- internal/cache: the adapters on disk, their order of use, and fetching them.
pub mod Lru
pub mod World
pub mod Store
pub mod Meta
pub mod Manager
