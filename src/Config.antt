-- ===== src/Config.antt =====
-- internal/config: the site configuration, the in-memory store of sites.
pub mod Loader
pub mod Site
pub mod Store
pub mod Watcher
