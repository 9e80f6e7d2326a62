-- ===== src/Approvals.antt =====
-- The human approval gate: the files of src/pynchy/host/container_manager/security/approval.py, the
-- chat's commands (src/pynchy/host/orchestrator/messaging/approval_handler.py) and what is done
-- about a decision (src/pynchy/host/container_manager/ipc/handlers_approval.py).
pub mod Files
pub mod Pending
pub mod Commands
pub mod Decide
pub mod Sweep
pub mod DecideLaws
pub mod DropLaws
pub mod SweepLaws
pub mod FlowLaws
mod Tests
