-- ===== src/Tests.antt =====
-- Runs of the model at concrete inputs, and the theorems applied to such inputs.
mod Collab
mod Scheduling
mod Schedules
mod Deliveries
mod Runs
mod Scheduler
mod Activities
mod Worker
