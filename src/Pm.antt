-- ===== src/Pm.antt =====
-- Persistent memory behind a cache, as `Flush`, `StoreFence`, `NTStore` and the copies of
-- runtime/include/internal/common.h drive it. A store may reach the medium at any later time, and
-- does so for certain once the line is flushed, or stored past the cache, and a fence follows.
pub mod Region
pub mod Word
pub mod Run
pub mod WordArray
