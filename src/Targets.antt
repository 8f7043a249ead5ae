-- ===== src/Targets.antt =====
-- src/Integrations/GTA5_Enhanced/Memory and Runtime: locating and verifying the runtime targets of
-- a game build.
pub mod Status
pub mod Address
pub mod Evidence
pub mod Region
pub mod Probe
pub mod Summary
pub mod Validators
pub mod Builds
pub mod Resolver
pub mod Coordinator
