-- ===== src/Collector.antt =====
-- internal/collector: what is read from the system's commands and files.
pub mod Runner
pub mod Smart
pub mod Zfs
pub mod Files
