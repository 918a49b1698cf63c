-- ===== src/Conversation.antt =====
-- app/services/conversation_assembler.py: segments of one station folded into conversations.
pub mod Data
pub mod Text
pub mod Close
pub mod Machine
pub mod Assembler
pub mod Cut
pub mod Strip
pub mod Rebase
pub mod Dedupe
pub mod Order
pub mod Emitted
pub mod Bounds
pub mod Reconnect
mod Tests
