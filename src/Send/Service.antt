-- ===== src/Send/Service.antt =====
-- The service of apps/web/src/features/conversation/services/ChatSendService.ts: its guards, what it
-- sends, its steps between the awaits, and the proofs.
pub mod Guards
pub mod Requests
pub mod Steps
pub mod Payload
pub mod Sending
