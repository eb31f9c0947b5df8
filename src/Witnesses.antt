-- ===== src/Witnesses.antt =====
-- The theorems on the code at concrete inputs.
mod Java
mod Staging
mod Address
mod Bedrock
mod Session
mod Exchange
mod Dialing
mod Cli
mod Release
mod Serving
mod Probing
