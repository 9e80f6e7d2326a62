-- ===== src/Config.antt =====
-- src/pynchy/config: references, the merge of the tiers, and who may write to a channel.
pub mod Refs
pub mod RefLaws
pub mod Merge
pub mod MergeLaws
pub mod Access
pub mod Users
pub mod Reach
pub mod Walk
pub mod UserLaws
pub mod AccessLaws
mod Tests
