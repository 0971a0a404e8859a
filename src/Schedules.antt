-- ===== src/Schedules.antt =====
-- internal/store/schedule.go: the automatic tasks of one user and their runs.
pub mod Tables
pub mod Edit
pub mod Listing
pub mod Queue
pub mod Progress
pub mod Finish
pub mod Failure
pub mod Invariant
pub mod Inserts
pub mod Changes
pub mod Steps
pub mod Claims
pub mod Notes
pub mod Advances
pub mod Closings
pub mod Reach
pub mod Fencing
pub mod Revisions
pub mod Wake
pub mod Claimed
pub mod Counted
pub mod Waits
pub mod Pruned
pub mod Moves
pub mod Retries
pub mod Newest
