-- ===== src/Store.antt =====
-- apps/web/src/store: the in-memory stores that the chat feature reads and writes. A store's
-- action is a function on the store's state, the argument of its `set`.
pub mod Messages
pub mod Streaming
pub mod Ui
pub mod ModelParams
pub mod Conversations
mod Tests
