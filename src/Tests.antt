-- ===== src/Tests.antt =====
-- Runs of the models on concrete input, and the theorems there.
mod Shards
mod Texts
mod Commands
mod Globs
mod Systems
mod Sessions
mod Servers
mod Connections
mod Safety
mod Conversations
