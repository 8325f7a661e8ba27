-- ===== src/Conversation.antt =====
-- Conversations with customers over the channels (src/conversations).
pub mod Model
pub mod Machine
pub mod Store
pub mod Handoff
pub mod Engine
pub mod Inbound
mod Control
mod Once
mod Track
mod Orders
mod Flow
mod Waiting
mod Tests
