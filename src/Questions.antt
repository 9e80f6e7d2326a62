-- ===== src/Questions.antt =====
-- The questions that an agent asks a user: src/pynchy/host/orchestrator/messaging/pending_questions.py
-- and ask_user_handler.py beside it.
pub mod Files
pub mod Answer
pub mod AnswerLaws
mod Tests
