-- ===== src/Examples.antt =====
-- The theorems at concrete inputs, with files, digests and ciphers in memory.
mod World
mod Places
mod Wire
mod Paths
mod Channels
mod Transfers
mod Pairings
mod Agents
mod Sockets
mod Senders
mod Daemons
mod Disk
mod Trust
mod Identities
mod Restarts
