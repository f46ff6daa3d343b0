-- ===== src/Memory.antt =====
-- src/memory: physical frames, virtual pages and the heap's mapping.
pub mod Frame
pub mod VirtualPages
pub mod Heap
