-- ===== src/Delivery.antt =====
-- src/pynchy/state: how far each channel is synced, and what is still to be delivered.
pub mod Cursors
pub mod CursorLaws
pub mod Outbound
pub mod OutboundLaws
pub mod Fresh
pub mod LedgerLaws
pub mod Promised
mod Tests
