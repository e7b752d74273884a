-- ===== src/Task.antt =====
-- The scheduler of Kernel/Task/Task.c and Includes/Task/Task.h.
pub mod Runqueue
pub mod WaitQueue
