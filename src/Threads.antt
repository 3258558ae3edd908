-- ===== src/Threads.antt =====
-- preemptive-threads/ and threads/: the threads that the timer interrupts, and those that yield.
pub mod Preemptive
pub mod Cooperative
