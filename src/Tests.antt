-- ===== src/Tests.antt =====
-- The theorems at concrete inputs: a fleet of two RPC nodes behind one DNS record, and a validator.
mod Clouds
mod Data
mod Watching
mod Overriding
mod Planning
mod Restarting
mod Commands
mod Upgrading
mod Installing
mod Provisioning
mod Validating
mod Voters
