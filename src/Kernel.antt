-- ===== src/Kernel.antt =====
-- The kernel of src/kernel: tasks, the scheduler, semaphores, message queues, timers.
pub mod Task
pub mod Invariant
pub mod Sched
pub mod Create
pub mod Tick
pub mod Sem
pub mod Mq
pub mod Mutex
pub mod SwTimer
pub mod Interrupt
mod Tests
