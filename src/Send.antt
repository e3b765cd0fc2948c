-- ===== src/Send.antt =====
-- The send pipeline of apps/web/src/features/conversation: ChatSendService.ts and the ways in which a
-- stream ends (useChatStream.ts).
mod Tests
pub mod Texts
pub mod Stream
pub mod Backend
pub mod Service
