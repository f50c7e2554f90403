-- ===== src/ProcessCpu.antt =====
-- src/process_cpu.c: the CPU time of processes.
pub mod Parse
pub mod Snapshot
pub mod Since
