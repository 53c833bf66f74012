-- ===== src/System.antt =====
-- The part of the operating system that the program talks to: paths and a file system.
pub mod Paths
pub mod Names
pub mod Files
pub mod Directories
pub mod Kept
pub mod Created
pub mod Unchanged
