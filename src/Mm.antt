-- ===== src/Mm.antt =====
-- kernel/mm: physical frames, the kernel heap, page tables, swap.
pub mod Bitmap
pub mod Pmm
pub mod Heap
pub mod Swap
pub mod Vmm
pub mod Model
