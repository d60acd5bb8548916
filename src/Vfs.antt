-- ===== src/Vfs.antt =====
-- vfs.h and vfs.c: the virtual file system.
pub mod Path
pub mod Tree
pub mod Calls
pub mod Trace
