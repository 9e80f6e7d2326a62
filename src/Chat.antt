-- ===== src/Chat.antt =====
-- The chats' messages: their table (src/pynchy/state/messages.py), the words that are commands, and
-- the pipeline that hands messages to an agent (src/pynchy/host/orchestrator/messaging).
pub mod Messages
pub mod Commands
pub mod Pipeline
pub mod MessageLaws
pub mod CursorLaws
pub mod Meanwhile
pub mod PipelineLaws
pub mod FairLaws
pub mod Reconcile
pub mod ReconcileLaws
pub mod Inbound
pub mod Loop
pub mod Routed
pub mod RouteLaws
pub mod Hands
pub mod GroupLaws
pub mod LoopLaws
mod Tests
mod RouteTests
