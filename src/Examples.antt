-- ===== src/Examples.antt =====
-- Runs of the model on concrete inputs.
mod Memory
mod Laws
mod States
mod Locking
mod Index
mod Documents
mod Rights
mod Editing
mod Storing
mod Owning
mod Keeping
mod Asking
mod Granting
mod Counting
