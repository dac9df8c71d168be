-- ===== src/Client.antt =====
-- endpoints.go: authorization through the client, with the exchange over HTTP as an argument.
pub mod Authorize
