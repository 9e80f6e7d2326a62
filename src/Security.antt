-- ===== src/Security.antt =====
-- src/pynchy/host/container_manager/security: the security of a container's run.
pub mod Policy
pub mod Taint
pub mod Gate
pub mod Registry
pub mod Service
pub mod Classify
pub mod Admin
pub mod Bash
pub mod BashLaws
pub mod ServiceLaws
pub mod Mounts
pub mod MountChecks
pub mod MountSearch
pub mod MountLaws
mod Tests
mod MountTests
