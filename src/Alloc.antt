-- ===== src/Alloc.antt =====
-- The size classes and the bins of the thread caches (runtime/src/lrmalloc_util.cpp,
-- runtime/include/internal/allocators/lrmalloc_util.h).
pub mod SizeClass
pub mod Lookup
pub mod Bin
