-- ===== src/Client.antt =====
-- The client of src/client: one function per command of its shell.
pub mod Address
pub mod Network
pub mod Args
pub mod Commands
pub mod Tags
pub mod Rights
pub mod Write
pub mod Stream
pub mod Shell
