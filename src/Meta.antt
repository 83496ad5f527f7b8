-- ===== src/Meta.antt =====
-- internal/meta: the configuration.
pub mod Config
