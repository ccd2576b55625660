-- ===== src/Storage.antt =====
-- native/runtime/managed_storage.{h,cpp}: the slabs of small objects.
pub mod Slab
pub mod Place
pub mod Sound
pub mod Sweep
pub mod Layout
pub mod Examples
