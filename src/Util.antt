-- ===== src/Util.antt =====
-- utils/utils.c: string copying, paths and directories, trimming and splitting.
pub mod Copy
pub mod Paths
pub mod Clean
pub mod Split
pub mod Move
