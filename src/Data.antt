-- ===== src/Data.antt =====
-- internal/data: container/heap as the package uses it, the priority queue and the MRU queue.
pub mod Heap
pub mod PriorityQueue
pub mod Mru
