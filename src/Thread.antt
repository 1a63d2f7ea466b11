-- ===== src/Thread.antt =====
-- thr/: threads, their queues and the scheduler of one CPU.
pub mod State
pub mod Sched
pub mod Queues
mod Switch
pub mod Schedule
pub mod Wakeup
mod Tests
