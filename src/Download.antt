-- ===== src/Download.antt =====
-- src/daemon.rs: the download of a NAR from its peers: the handshakes, the loop over the notifications,
-- and `try_p2p_download`. Instants are milliseconds; what a turn of a loop receives is an argument, with
-- the instant at which it begins. A loop whose turns run out is `unfinished`.
pub mod Handshake
pub mod Blocks
pub mod Verified
pub mod Replies
pub mod Peers
pub mod Authentic
