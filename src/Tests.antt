-- ===== src/Tests.antt =====
-- The theorems applied to concrete inputs, and runs of the definitions.
mod Patterns
mod Memory
mod Natives
mod Script
mod Targets
mod Bootstrap
mod Hook
mod Runtime
mod Logger
mod Startup
