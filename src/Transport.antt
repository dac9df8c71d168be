-- ===== src/Transport.antt =====
-- transport.go: what is sent to the server, and how its answers are read.
pub mod Answer
pub mod Encode
pub mod Headers
pub mod Read
