-- ===== src/Enrichment.antt =====
-- Container metadata (pkg/enrichment).
pub mod Lru
pub mod Cgroup
pub mod Manager
