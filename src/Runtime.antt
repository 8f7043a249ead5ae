-- ===== src/Runtime.antt =====
-- src/Integrations/GTA5_Enhanced/GTA_Module_Manager.cpp and Runtime: what a process that has loaded
-- the library is told of the game, and the runtime that is set up in it.
pub mod Detector
pub mod ModuleManager
pub mod GtaRuntime
pub mod Bridge
pub mod Hook
pub mod RuntimeManager
