-- ===== src/Tests.antt =====
-- Concrete inputs: the theorems applied to them, and runs of the code.
mod Sample
mod Transfers
mod Paths
mod Relays
mod Queries
mod Fetches
mod Nodes
mod Swarms
mod Https
mod Hashes
mod Stores
mod Downloads
mod Peers
mod Substitutes
