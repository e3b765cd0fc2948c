-- ===== src/Send/Service/Payload.antt =====
-- The request that ChatSendService.ts sends fits the window of the model.
