-- ===== src/Cpu.antt =====
-- The CPU module: src/go/cpu.
pub mod Metrics
pub mod Control
