-- ===== src/Super.antt =====
-- The super block: fs/kfs_super.c. `kfs_verify` reads it from a device; its copy in memory is the
-- structures of fs/kfs_mem.h.
pub mod Verify
pub mod Checks
pub mod Memory
pub mod Built
pub mod Mount
