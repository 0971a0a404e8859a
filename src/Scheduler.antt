-- ===== src/Scheduler.antt =====
-- internal/scheduler: the manager that claims and runs the automatic tasks of all users.
pub mod WakeQueue
pub mod Loop
pub mod Notices
pub mod Worker
pub mod Active
