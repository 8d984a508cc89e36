-- ===== src/Kcp.antt =====
-- internal/kcp: REST configurations that point at one logical cluster, and annotations.
pub mod Annotations
pub mod Rest
