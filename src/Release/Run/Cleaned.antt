-- ===== src/Release/Run/Cleaned.antt =====
-- cmd/release-integration/main.go: what `runCLI` leaves open.
