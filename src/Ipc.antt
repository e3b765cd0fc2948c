-- ===== src/Ipc.antt =====
-- The IPC bridge of the frontend: apps/web/src/lib/ipc and apps/web/src/lib/ipc-latency.ts.
pub mod Latency
pub mod Transport
mod Tests
