-- ===== src/Ratchet.antt =====
-- The Double Ratchet of client/src/cryptobox.cpp: the file's static functions over one session.
pub mod Primitives
pub mod Session
pub mod Skipped
pub mod Cap
pub mod Purge
pub mod Chain
pub mod Bound
pub mod Delivery
pub mod Reorder
pub mod Turns
