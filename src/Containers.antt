-- ===== src/Containers.antt =====
-- Containers that are capped in size, of src/core/common and src/infra/concurrency.
pub mod Keys
pub mod Lru
pub mod Capped
pub mod Queue
