-- ===== src/Backend.antt =====
-- src/Backend: errors, the memory scanner with its cache, and the allocation tracker.
pub mod Error
pub mod Range
pub mod Pattern
pub mod Scanner
pub mod PatternCache
pub mod MemoryTracker
pub mod Process
pub mod Logger
