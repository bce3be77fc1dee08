-- ===== src/Kernel.antt =====
-- The terminal of crates/kernel: its paths, its command line, its pipelines and its files.
pub mod Paths
pub mod CommandLine
pub mod Session
pub mod Files
pub mod Userland
pub mod Service
pub mod Scripts
pub mod Completion
pub mod Sample
mod Tests
