-- ===== src/Api.antt =====
-- frvt/api: the choice of schemes and pages, the registry of divergence reports, the limiter of failed
-- logins, the indexes of mappings and the jump menu.
pub mod Schemes
pub mod Registry
pub mod Limiter
pub mod Indexing
pub mod Tests
pub mod Jump
pub mod Navigation
