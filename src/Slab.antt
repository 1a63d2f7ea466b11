-- ===== src/Slab.antt =====
-- page/page-kmcache.c: caches of objects of one size, in slabs of pages.
pub mod Sizes
pub mod Objects
pub mod Api
mod Occurs
mod Valid
mod Place
mod Room
mod Grow
mod Pick
mod Alloc
mod Put
mod Where
mod Free
mod Layout
mod Tests
