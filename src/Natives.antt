-- ===== src/Natives.antt =====
-- src/Integrations/GTA5_Enhanced/Natives: from a canonical native hash to a handler.
pub mod Crossmap
pub mod Table
pub mod HandlerTable
pub mod CallContext
pub mod Manager
pub mod Invoker
pub mod Frame
pub mod Bootstrap
