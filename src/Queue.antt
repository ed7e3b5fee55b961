-- ===== src/Queue.antt =====
-- internal/queue: the items, the heap that holds them, the bounded queue and its dispatch loop.
pub mod Item
mod Array
pub mod Heap
pub mod Bounded
pub mod Dispatch
