-- ===== src/Schedule.antt =====
-- Scheduled work: the tables of src/pynchy/state, when a task runs next (src/pynchy/utils.py), the
-- requests that create and change tasks, and the loop that runs them.
pub mod Rows
pub mod NextRun
pub mod Tasks
pub mod Jobs
pub mod Requests
pub mod OwnRows
pub mod RequestLaws
pub mod Calendar
pub mod Poll
pub mod PollLaws
pub mod CronLaws
pub mod Agent
pub mod AgentLaws
pub mod QueueLaws
mod Tests
