-- ===== src/Tests.antt =====
-- The theorems of the modules at concrete inputs, by the part of the program.
pub mod Util
pub mod Conf
pub mod Yaml
pub mod Pipeline
pub mod Tables
pub mod Settings
pub mod Config
pub mod Monitor
pub mod Drain
pub mod Include
pub mod Ends
pub mod Threads
pub mod Log
pub mod Move
pub mod Compress
pub mod Program
pub mod Buffer
pub mod Starts
pub mod Dump
pub mod Database
pub mod Signal
