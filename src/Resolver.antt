-- ===== src/Resolver.antt =====
-- The reference resolver, `frvt/resolver`.
pub mod Types
pub mod Reference
pub mod Compose
pub mod Cover
pub mod Walk
pub mod Hull
pub mod Tests
pub mod Chains
pub mod Connect
pub mod RangeHull
pub mod Assemble
