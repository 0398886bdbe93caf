-- ===== src/Domains.antt =====
-- The domain registry: include/aniparse/detail/DomainScanner.hpp and DomainStore.hpp.
pub mod Labels
pub mod Scanner
pub mod Store
mod Tests
