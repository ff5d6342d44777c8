-- ===== src/Swarm/Codec.antt =====
-- src/swarm/codec.rs: the messages of the block exchange protocol. Peers are known by their ids.
use guix_p2p.Prelude.{ℕ, List}
use guix_p2p.Crypto.{Bytes, Text}

-- A libp2p `PeerId`; the program only compares them.
abbrev pub PeerId : Type 0
PeerId = ℕ

pub record BlockData : Type 0 where
  pub index : ℕ
  pub bytes : Bytes

pub data BlockRequest : Type 0 where
  handshake : Bytes → BlockRequest
  get_blocks : Bytes → List ℕ → BlockRequest

-- `handshake_reply` has the fields `blocks_available`, `block_count`, `block_size` and
-- `block_hashes`, in this order.
pub data BlockResponse : Type 0 where
  handshake_reply : List ℕ → ℕ → ℕ → List Bytes → BlockResponse
  blocks : List BlockData → BlockResponse
  error : Text → BlockResponse
