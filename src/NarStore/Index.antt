-- ===== src/NarStore/Index.antt =====
-- src/nar_store.rs: the operations that fill the index at startup and label its entries.
use guix_p2p.Prelude.{
  ℕ, Bool, true, false, not, Option, none, some, List, [], ◌∷◌, if◌then◌else◌, ◌==◌, nat_eq,
  text_eq, length, is_empty, lookup, insert, modify,
}
use guix_p2p.Crypto.{Bytes, Text, Crypto}
use guix_p2p.Swarm.Block.{from_file_size}
use guix_p2p.NarStore.{
  NarEntry, NarStore, Files, WriteOutcome, MetadataFormat, read_metadata, write_metadata,
  save_with_source, manual, cache,
}

-- One entry of the directory listing: the path, whether its extension is `nar`, its stem where that
-- is text, and what reading the file returns.
pub record DirEntry : Type 0 where
  pub path : Text
  pub is_nar : Bool
  pub stem : Option Text
  pub content : Option Bytes

module _ (c : Crypto) (format : MetadataFormat) where
  -- The body of the loop of `scan` for a file whose stem and content could be read. `none` is the
  -- assertion of `from_file_size`.
  unfoldable pub index_file : Files → NarStore → Text → Text → Bytes → Option NarStore
  index_file files store path stem bytes =
      if not (c.hex (c.sha256 bytes) == stem)
      then some store
      else elim (from_file_size (length bytes) store.block_size) [
        | none ↦ none
        | some block_info ↦
            let metadata = read_metadata format store files stem in
            let entry : NarEntry = record {
              path = path;
              nar_size = length bytes;
              block_info = block_info;
              store_path = elim metadata [ none ↦ none | some m ↦ m.store_path ];
              source = elim metadata [ none ↦ cache | some m ↦ m.source ];
              created_at = elim metadata [ none ↦ 0 | some m ↦ m.created_at ];
            } in
            some (record store { index = insert store.index stem entry })
      ]

  unfoldable pub scan_entry : Files → NarStore → DirEntry → Option NarStore
  unfolding index_file
  scan_entry files store entry = if not entry.is_nar then some store else elim entry.stem [
    | none ↦ some store
    | some stem ↦ elim entry.content [
      | none ↦ some store
      | some bytes ↦ index_file files store entry.path stem bytes
    ]
  ]

  unfoldable pub scan : Files → NarStore → List DirEntry → Option NarStore
  unfolding scan_entry
  scan files store [] = some store
  scan files store (entry ∷ entries) = elim (scan_entry files store entry) [
    | none ↦ none
    | some store' ↦ scan files store' entries
  ]

-- `annotate_seed_store_path`: the sidecar is written with the entry's source and time; a failed
-- write is only logged.
unfoldable pub annotate_seed_store_path :
    MetadataFormat → WriteOutcome → ℕ → NarStore → Files → Text → Text → NarStore × Files × Bool
annotate_seed_store_path format meta now store files nar_hash_hex store_path =
    if is_empty store_path then (store, files, false) else elim (lookup store.index nar_hash_hex) [
      | none ↦ (store, files, false)
      | some entry ↦ elim entry.store_path [
        | some _ ↦ (store, files, false)
        | none ↦
            let label : NarEntry → NarEntry = λ e. record e { store_path = some store_path } in
            let store' : NarStore = record store {
              index = modify store.index nar_hash_hex label;
            } in
            let (files', _) =
              write_metadata format meta now store' files nar_hash_hex (some store_path)
                entry.source entry.created_at in
            (store', files', true)
      ]
    ]

-- `seed_store_path`: `computed` is the answer of `guix hash`, `exported` that of Guix's serializer.
-- The result is the hash, or `none` for an error.
unfoldable pub seed_store_path :
    MetadataFormat
    → WriteOutcome
    → WriteOutcome
    → ℕ
    → Option Text
    → Option Bytes
    → NarStore
    → Files
    → Text
    → Option (NarStore × Files × Option Text)
seed_store_path format nar meta now computed exported store files store_path = elim computed [
  | none ↦ some (store, files, none)
  | some nar_hash_hex ↦ elim (lookup store.index nar_hash_hex) [
    | some entry ↦
        let path : Text = elim entry.store_path [ none ↦ store_path | some p ↦ p ] in
        let label : NarEntry → NarEntry =
          λ e. record e { store_path = some path; source = manual } in
        let store' : NarStore = record store { index = modify store.index nar_hash_hex label } in
        let (files', _) =
          write_metadata format meta now store' files nar_hash_hex (some path) manual
            entry.created_at in
        some (store', files', some nar_hash_hex)
    | none ↦ elim exported [
      | none ↦ some (store, files, none)
      | some nar_data ↦
          elim (save_with_source format nar meta now store files nar_hash_hex nar_data
            (some store_path) manual) [
              | none ↦ none
              | some (store', files', saved) ↦
                  some (store', files', (if saved then some nar_hash_hex else none))
            ]
    ]
  ]
]
