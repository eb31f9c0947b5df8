-- ===== src/Staging.antt =====
-- The staging server, internal/stagingserver: the Java side (server.go) and the Bedrock side
-- (bedrock.go).
pub mod Codec
pub mod Server
pub mod Bedrock
pub mod Serve
