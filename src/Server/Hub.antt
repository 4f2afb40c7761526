-- ===== src/Server/Hub.antt =====
-- server/hub.go
pub mod State
pub mod Handle
pub mod Loop
