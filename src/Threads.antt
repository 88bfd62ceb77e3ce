-- ===== src/Threads.antt =====
-- The directory threads: the singly linked lists that queues of threads and of interrupts are made of.
pub mod Lists
pub mod Scheduler
pub mod Messages
