-- ===== src/NarStore.antt =====
-- src/nar_store.rs: the local NARs that are served to peers. Files are an association list from
-- paths to contents; what the file system answers to a write is an argument of the operation. The
-- JSON of the metadata sidecars is read and written by a third-party crate: a parameter.

pub mod Index
pub mod Soundness
pub mod Transfer
pub mod Served
use guix_p2p.Prelude.{
  ℕ, ◌+◌, ◌-◌, ◌*◌, ◌/◌, ◌%◌, min, Bool, true, false, not, Option, none, some, List, [], ◌++◌, leb,
  if◌then◌else◌, nat_eq, text_eq, length, take, drop, is_empty, filter_map, range_from, Map, lookup,
  insert, remove, keys,
}
use guix_p2p.Crypto.{Bytes, Text, Crypto}
use guix_p2p.Text.{chars}
use guix_p2p.Swarm.Codec.{
  BlockData, BlockRequest, BlockResponse, handshake, get_blocks, handshake_reply, blocks, error,
}
use guix_p2p.Swarm.Block.{u32_mod, usize_mod, BlockInfo, from_file_size, compute_block_hashes}

pub data SeedSource : Type 0 where
  manual downloaded cache : SeedSource

unfoldable pub as_str : SeedSource → Text
as_str manual = chars "manual"
as_str downloaded = chars "downloaded"
as_str cache = chars "cache"

pub record NarEntry : Type 0 where
  pub path : Text
  pub nar_size : ℕ
  pub block_info : BlockInfo
  pub store_path : Option Text
  pub source : SeedSource
  pub created_at : ℕ

pub record NarStore : Type 0 where
  pub cache_dir : Text
  pub block_size : ℕ
  pub index : Map Text NarEntry

pub record SeededNarInfo : Type 0 where
  pub nar_size : ℕ
  pub block_count : ℕ
  pub block_size : ℕ
  pub store_path : Option Text
  pub source : SeedSource
  pub created_at : ℕ

pub record NarMetadata : Type 0 where
  pub store_path : Option Text
  pub source : SeedSource
  pub created_at : ℕ
  pub updated_at : ℕ

-- The files of the machine, as far as the store reads and writes them.
abbrev pub Files : Type 0
Files = Map Text Bytes

-- What a write of a whole file does: it fails before the file is opened, it stops after some bytes,
-- or it succeeds.
pub data WriteOutcome : Type 0 where
  not_created : WriteOutcome
  stopped_after : ℕ → WriteOutcome
  written : WriteOutcome

unfoldable pub write_file : WriteOutcome → Files → Text → Bytes → Files × Bool
write_file not_created files path bytes = (files, false)
write_file (stopped_after n) files path bytes = (insert files path (take n bytes), false)
write_file written files path bytes = (insert files path bytes, true)

-- The JSON form of the metadata.
pub record MetadataFormat : Type 0 where
  pub encode : NarMetadata → Bytes
  pub decode : Bytes → Option NarMetadata

unfoldable pub nar_path : Text → Text → Text
nar_path cache_dir nar_hash_hex = cache_dir ++ (chars "/" ++ (nar_hash_hex ++ chars ".nar"))

unfoldable pub metadata_path : Text → Text → Text
metadata_path cache_dir nar_hash_hex = cache_dir ++ (chars "/" ++ (nar_hash_hex ++ chars ".json"))

unfoldable pub has_nar : NarStore → Text → Bool
has_nar store nar_hash_hex = elim (lookup store.index nar_hash_hex) [ none ↦ false | some _ ↦ true ]

unfoldable pub seeded_hashes : NarStore → List Text
seeded_hashes store = keys store.index

unfoldable pub summary : NarStore → NarEntry → SeededNarInfo
summary store entry = record {
  nar_size = entry.nar_size;
  block_count = entry.block_info.block_count;
  block_size = store.block_size % u32_mod;
  store_path = entry.store_path;
  source = entry.source;
  created_at = entry.created_at;
}

unfoldable pub seed_info : NarStore → Text → Option SeededNarInfo
unfolding summary
seed_info store nar_hash_hex = elim (lookup store.index nar_hash_hex) [
  | none ↦ none
  | some entry ↦ some (summary store entry)
]

module _ (format : MetadataFormat) where
  unfoldable pub read_metadata : NarStore → Files → Text → Option NarMetadata
  unfolding metadata_path
  read_metadata store files nar_hash_hex =
      elim (lookup files (metadata_path store.cache_dir nar_hash_hex)) [
        | none ↦ none
        | some content ↦ format.decode content
      ]

  unfoldable pub write_metadata :
      WriteOutcome → ℕ → NarStore → Files → Text → Option Text → SeedSource → ℕ → Files × Bool
  unfolding metadata_path write_file
  write_metadata outcome now store files nar_hash_hex store_path source created_at =
      write_file outcome files (metadata_path store.cache_dir nar_hash_hex) (
        format.encode (record {
          store_path = store_path;
          source = source;
          created_at = created_at;
          updated_at = now;
        }))

  -- `nar` and `meta` are the outcomes of the two writes. The result says whether the call returned
  -- `Ok`; the outer `none` is the assertion of `from_file_size`.
  unfoldable pub save_with_source :
      WriteOutcome
      → WriteOutcome
      → ℕ
      → NarStore
      → Files
      → Text
      → Bytes
      → Option Text
      → SeedSource
      → Option (NarStore × Files × Bool)
  unfolding nar_path read_metadata write_file write_metadata
  save_with_source nar meta now store files nar_hash_hex nar_data store_path source =
      let path = nar_path store.cache_dir nar_hash_hex in
      let created_at : ℕ = elim (read_metadata store files nar_hash_hex) [
        | none ↦ now
        | some metadata ↦ metadata.created_at
      ] in
      let (files', done) = write_file nar files path nar_data in
      if not done
      then some (store, files', false)
      else elim (from_file_size (length nar_data) store.block_size) [
        | none ↦ none
        | some block_info ↦
            let entry : NarEntry = record {
              path = path;
              nar_size = length nar_data;
              block_info = block_info;
              store_path = store_path;
              source = source;
              created_at = created_at;
            } in
            let store' : NarStore = record store {
              index = insert store.index nar_hash_hex entry;
            } in
            let (files'', ok) =
              write_metadata meta now store' files' nar_hash_hex store_path source created_at in
            some (store', files'', ok)
      ]

  unfoldable pub save_with_store_path :
      WriteOutcome
      → WriteOutcome
      → ℕ
      → NarStore
      → Files
      → Text
      → Bytes
      → Option Text
      → Option (NarStore × Files × Bool)
  unfolding save_with_source
  save_with_store_path nar meta now store files nar_hash_hex nar_data store_path =
      save_with_source nar meta now store files nar_hash_hex nar_data store_path downloaded

-- `index.remove`, and the removal of the two files. A failed removal is only logged: the Booleans
-- say which of the two succeed.
unfoldable pub remove_seed :
    Bool → Bool → NarStore → Files → Text → NarStore × Files × Option SeededNarInfo
unfolding metadata_path summary
remove_seed nar_gone meta_gone store files nar_hash_hex = elim (lookup store.index nar_hash_hex) [
  | none ↦ (store, files, none)
  | some entry ↦
      let files' = if nar_gone then remove files entry.path else files in
      let meta = metadata_path store.cache_dir nar_hash_hex in
      (
        record store { index = remove store.index nar_hash_hex },
        (if meta_gone then remove files' meta else files'),
        some (summary store entry),
      )
]

-- `(0..n).collect()`, and one block of a request: the slice that starts at `i * block_size`. The
-- products and sums are those of `usize`; `data[off..end]` is the slice of that length.
unfoldable pub serve_block : ℕ → Bytes → ℕ → Option BlockData
serve_block block_size bytes i =
    let off = i * block_size % usize_mod in
    let stop = min ((off + block_size) % usize_mod) (length bytes) in
    if leb (length bytes) off
    then none
    else some (record { index = i; bytes = take (stop - off) (drop off bytes) })

unfoldable pub serve_blocks : NarStore → Files → Text → List ℕ → Option BlockResponse
unfolding serve_block
serve_blocks store files nar_hash_hex indices = elim (lookup store.index nar_hash_hex) [
  | none ↦ none
  | some entry ↦ elim (lookup files entry.path) [
    | none ↦ none
    | some bytes ↦
        let blks = filter_map (serve_block store.block_size bytes) indices in
        if is_empty blks
        then some (BlockResponse.error (chars "no blocks available for this nar"))
        else some (BlockResponse.blocks blks)
  ]
]

module _ (c : Crypto) where
  -- `none` is an error.
  unfoldable pub read_block_hashes : NarStore → Files → Text → Option (List Bytes)
  unfolding compute_block_hashes
  read_block_hashes store files nar_hash_hex = elim (lookup store.index nar_hash_hex) [
    | none ↦ none
    | some entry ↦ elim (lookup files entry.path) [
      | none ↦ none
      | some bytes ↦ some (compute_block_hashes c bytes store.block_size)
    ]
  ]

  unfoldable pub handle_request : NarStore → Files → BlockRequest → Option BlockResponse
  unfolding read_block_hashes serve_blocks
  handle_request store files (handshake nar_hash) = elim (lookup store.index (c.hex nar_hash)) [
    | none ↦ none
    | some entry ↦ elim (read_block_hashes store files (c.hex nar_hash)) [
      | none ↦ some (handshake_reply [] 0 (store.block_size % u32_mod) [])
      | some hashes ↦
          let n = entry.block_info.block_count in
          some (handshake_reply (range_from 0 n) n (store.block_size % u32_mod) hashes)
    ]
  ]
  handle_request store files (get_blocks nar_hash indices) =
      serve_blocks store files (c.hex nar_hash) indices
