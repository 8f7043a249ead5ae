-- ===== src/Script.antt =====
-- src/Integrations/GTA5_Enhanced/Script: script globals, programs and threads.
pub mod Globals
pub mod Tables
pub mod Runtime
