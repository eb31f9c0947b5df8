-- ===== src/Address.antt =====
-- Targets and addresses of the client: endpoint.go, editions.go and address.go.
pub mod Errors
pub mod Family
pub mod Endpoint
pub mod Guard
pub mod Edition
pub mod Candidates
