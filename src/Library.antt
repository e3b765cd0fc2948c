-- ===== src/Library.antt =====
-- apps/web/src/features/library: the models that the backend offers.
pub mod Capabilities
pub mod Keyboard
