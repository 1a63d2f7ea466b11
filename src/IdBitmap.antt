-- ===== src/IdBitmap.antt =====
-- kern/id-bitmap.c and include/kern/id-bitmap.h: allocation of object ids from a bitmap that grows.
-- The bodies run as one step each (they hold the map's spinlock); `kmalloc size` says whether the
-- kernel heap grants a request of that many bytes.
pub mod Map
pub mod Api
pub mod View
pub mod Resize
pub mod Find
pub mod Loop
pub mod Ids
mod Tests
