-- ===== src/Kernel.antt =====
-- kernel.c: the page allocator `bmk_allocpg`, the multiboot memory map and the console.
pub mod Page
pub mod Memmap
pub mod Console
pub mod Screen
