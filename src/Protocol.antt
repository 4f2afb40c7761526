-- ===== src/Protocol.antt =====
-- The package protocol: ids and envelopes, shared by the client and the server.
pub mod Id
pub mod Envelope
pub mod Base64
pub mod Escapes
pub mod Url
pub mod Invite
