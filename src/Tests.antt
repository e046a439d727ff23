-- ===== src/Tests.antt =====
-- Runs of the theorems at concrete inputs.
mod Log
mod Tasks
mod Gate
mod Sockets
mod SignIn
mod Runs
mod Words
mod Reads
mod Ledgers
