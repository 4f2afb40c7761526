-- ===== src/Server.antt =====
-- The package main of server/.
pub mod Store
pub mod Run
pub mod Channel
pub mod Mailbox
pub mod Life
pub mod Hub
