-- ===== src/Client.antt =====
-- The package main of client/.
pub mod State
pub mod Address
pub mod Pumps
pub mod Request
pub mod Dialogue
pub mod Program
