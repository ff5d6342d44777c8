-- ===== src/Swarm.antt =====
-- src/swarm: the wire messages, the block layout of a NAR, and the state of one download.
pub mod Codec
pub mod Block
pub mod Downloader
