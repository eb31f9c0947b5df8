-- ===== src/Release.antt =====
-- cmd/release-integration: the checks of a released binary against a backend of its own.
pub mod Config
pub mod Valid
pub mod Probe
pub mod Archive
pub mod Waiting
pub mod Backend
pub mod Relay
pub mod Run
