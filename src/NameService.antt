-- ===== src/NameService.antt =====
-- kern/kname-service.c: the kernel's name service, a table from names to endpoints.
pub mod Table
mod Registration
mod Tests
