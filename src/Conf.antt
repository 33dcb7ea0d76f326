-- ===== src/Conf.antt =====
-- utils/conf.c and utils/conf.h: the configuration tree, its lookups and changes.
pub mod Node
pub mod Value
pub mod Lookup
pub mod Set
pub mod Remove
pub mod Include
pub mod Dump
pub mod Number
pub mod Context
