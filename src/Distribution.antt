-- ===== src/Distribution.antt =====
-- app/agents/distribution.py: the Channel Distribution agent.
pub mod Schedule
pub mod Suspension
pub mod Scheduled
pub mod Launched
pub mod Launch
pub mod Pause
pub mod Requeued
pub mod Resumption
pub mod Attempts
pub mod Recipients
pub mod Sends
pub mod Publishing
pub mod Email
pub mod Attempted
pub mod Counted
pub mod GoLive
pub mod Sent
pub mod Delivered
pub mod Unsent
pub mod Fresh
pub mod Safety
pub mod OnRecord
