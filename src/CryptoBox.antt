-- ===== src/CryptoBox.antt =====
-- `CryptoBox` of client/src/cryptobox.h and cryptobox.cpp: its state, then a module for each group
-- of its operations and modules for what is proved of them. Random bytes, the clock and the
-- contents of files are arguments.
pub mod State
pub mod Identity
pub mod Prekeys
pub mod Sessions
pub mod X3dhSessions
pub mod Messages
pub mod SafetyNumber
pub mod PrekeyBlob
