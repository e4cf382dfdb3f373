-- ===== src/Client.antt =====
-- `ChatClient` (client/src/chatclient.cpp): the state machine behind the window.
pub mod State
pub mod Rekey
pub mod Files
pub mod FileInit
pub mod Sending
pub mod Outbox
pub mod Verification
