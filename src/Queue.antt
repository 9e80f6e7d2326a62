-- ===== src/Queue.antt =====
-- src/pynchy/host/orchestrator/concurrency.py: the per-group concurrency queue.
pub mod State
pub mod Start
pub mod Enqueue
pub mod Finish
pub mod Containers
pub mod Event
pub mod Invariant
pub mod Quiet
pub mod Slots
pub mod Preserve
pub mod Ends
pub mod Runs
pub mod Protocol
pub mod Evolution
pub mod Life
pub mod Shutdown
mod Tests
