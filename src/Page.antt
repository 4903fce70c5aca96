-- ===== src/Page.antt =====
-- sys/page.c: the page frames and their free list, the page tables, and the kernel heap.
pub mod Align
pub mod Frames
pub mod Walk
pub mod Kmalloc
pub mod Fault
pub mod Fork
pub mod Tests
