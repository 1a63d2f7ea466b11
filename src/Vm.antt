-- ===== src/Vm.antt =====
-- vm/vm.c and vm/vm-copy-inout.c: the areas of an address space and the pages mapped in them.
pub mod Space
pub mod Pages
pub mod Resize
mod Order
mod Create
mod Access
mod Ranges
mod Mapping
mod Unmapping
mod NewPages
mod Growth
mod Tests
