-- ===== src/Storage.antt =====
-- The storage server (include/storageserver.h and src/storageserver/).
pub mod Edit
pub mod Host
pub mod Content
pub mod Handlers
pub mod Checkpoints
pub mod Streams
pub mod Dispatch
pub mod Paths
pub mod Undo
pub mod Confinement
pub mod Saving
pub mod Isolation
