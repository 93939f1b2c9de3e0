-- ===== src/NameServer.antt =====
-- The name server (include/nameserver.h and src/nameserver/).
pub mod Database
pub mod State
pub mod Start
pub mod Permission
pub mod Servers
pub mod Locks
pub mod Register
pub mod Files
pub mod Edits
pub mod Access
pub mod Views
pub mod Dispatch
pub mod Exclusion
pub mod Sessions
pub mod Catalogue
pub mod Ownership
pub mod Numbering
