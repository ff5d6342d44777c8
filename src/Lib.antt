-- ===== src/Lib.antt =====
-- guix-p2p: a daemon that distributes Guix substitutes between peers. A client asks for a store path;
-- the daemon finds its narinfo, downloads the NAR as blocks from peers of a libp2p swarm or from HTTP
-- substitute servers, checks its SHA-256, hands it to guix-daemon, and may serve it to others.
--
-- The parts, and the files that model them (paths from the repository's root):
-- - Crypto: what src/ takes from `sha2` and `hex`: a digest of 32 bytes, and hexadecimal text that is
--   read back and has no upper-case letter. It is a parameter of every module that hashes.
-- - Text: the methods of `str` that the code uses, over lists of code points.
-- - NarHash: src/nar_hash.rs, `sha256_bytes` and the base-32 decoder, with its panics.
-- - StorePath: src/store_path.rs. Narinfo: src/narinfo.rs, the records and the cache, `parse_narinfo`
--   (Parse), the ACL and the check of a signature (Verify); the time of a call is an argument.
-- - Config: the policies of src/config.rs and the fields that are read here.
-- - Protocol: src/daemon/protocol.rs, the parsed commands and the framing of replies.
-- - Swarm: src/swarm/block.rs (Block), codec.rs (Codec) and downloader.rs (Downloader).
-- - Scheduler: src/daemon.rs, the states of blocks and peers while one NAR is downloaded, their
--   dispatch, requeueing and completion.
-- - NarStore: src/nar_store.rs, the index of served NARs, its files, and the answers to peers.
-- - Reputation, Connection: src/reputation.rs and src/connection.rs.
-- - Providers: src/daemon.rs, lists and selection of providers, the wait for the DHT's answers.
-- - Http: src/http_client.rs, the candidates of an HTTP download and the choice among them, and the
--   narinfo that a substitute server is asked for (Fetch).
-- - Download: src/daemon.rs, `try_p2p_download` (Peers), with its handshakes (Handshake) and the loop
--   that stores the blocks which arrive (Blocks).
-- - Query: src/daemon.rs, the handlers of `have` and `info`, and the connection of a relay or of the
--   standard streams to them (Session).
-- - Relay: src/relay.rs, the loop over the lines of the socket, line by line, and `forward`.
-- - PeerStore: src/peer_store.rs, the entries, their loading and pruning, and the calls that record and
--   remove an address. Bandwidth: src/bandwidth.rs, the bucket of tokens and the loop of `consume`.
-- - Dht: src/dht.rs, the keys of records, the cache of providers, the handler of Kademlia's events.
-- - Runtime: src/runtime.rs and src/channel.rs, the state of the swarm task and what it tells the others,
--   its reaction to an event of libp2p (Events), its commands and the turns of its loop (Turns).
--   Health is the monitor of src/daemon.rs that keeps served NARs announced.
-- - Wrapper: src/wrapper.rs, the configuration from the environment and the routing of a call.
-- - Substitute: src/daemon.rs, `try_swarm_substitute`, from the hash of the store path to the
--   terminal answer, with all its effects in order.
-- A child module named for what it proves holds the theorems of its parent; Tests has the concrete
-- inputs.
--
-- How they interact: Substitute finds a narinfo by StorePath and Narinfo, decodes its hash by
-- NarHash, takes the NAR from one of two downloads, and saves it by NarStore. A swarm download asks
-- the peers that Providers selects, by Reputation and Connection; Scheduler decides which block is
-- requested where, and Downloader checks the blocks of a peer's answer, which its NarStore has
-- served; Download runs the three in a loop. Runtime carries the requests and their answers, serves
-- from NarStore, and keeps Dht, Connection, Reputation and PeerStore up to date. A relay sends its
-- commands to Query and Substitute over a socket, whose replies Protocol frames and Relay takes
-- apart. Query asks Http for narinfos, which Narinfo checks.
--
-- Conventions: a record is a struct, state is passed and returned, `none` or `panics` stands for an
-- assertion or an index out of range that ends the task, and other errors are values. Numbers are
-- natural; where the code can wrap, the remainder by 2 ^ 32 or 2 ^ 64 is written out. `HashMap` is
-- an association list, whose order is arbitrary; `HashSet` is a list. What the network, the file
-- system and the clock answer are arguments. The only fuel is the number of bytes for `chunks`, each
-- of which takes one at least, the number of bytes for a throttled transfer, whose turns each take
-- one at least, 20 digits for the decimal text of a 64-bit number, and the characters of the ACL for
-- the loop over its keys. A loop over what the network sends is recursion over the list of what it
-- receives; where that list ends before the loop does, the result says so (`unfinished`, `none`).
-- The clock stands after 1970, the local interfaces of PeerStore stay the same, and memory suffices
-- for every vector of fewer than 2 ^ 63 bytes; a longer one is a panic. A task that the code spawns
-- on a lock (the filling of the cache in Dht) is a step of its own, which comes at any later time.
--
-- Not modelled: the behaviours of the swarm (src/behaviour.rs) and its start, which belong to
-- libp2p; the listener that accepts relay connections and the start of the daemon's tasks; the
-- results of the two downloads are arguments of Substitute; the dashboard and the diagnostics; and
-- the end-to-end tools. Libgcrypt, ed25519-dalek and base64 are parameters. Log messages and the
-- elapsed times in events are left out.
pub mod Prelude
pub mod Crypto
pub mod Text
pub mod NarHash
pub mod Swarm
pub mod Scheduler
pub mod NarStore
pub mod Config
pub mod StorePath
pub mod Narinfo
pub mod Protocol
pub mod PeerStore
pub mod Bandwidth
pub mod Dht
pub mod Runtime
pub mod Wrapper
pub mod Relay
pub mod Reputation
pub mod Connection
pub mod Substitute
pub mod Providers
pub mod Download
pub mod Query
pub mod Http
mod Tests
