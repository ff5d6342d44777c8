-- ===== src/NarStore/Served.antt =====
-- src/nar_store.rs: the blocks that a store serves against the chunks that its block hashes are of.
use guix_p2p.Prelude.{
  ℕ, ◌+◌, ◌-◌, ◌*◌, ◌<◌, min, ◌≡◌, refl, sym, ap, ◌∙◌, inl, inr, Option, none, some, List, [], ◌∷◌,
  arith, tests, leb, Bool-cases, Option-cases, subst, ◌==◌, nat_eq, text_eq, length, get_elem?,
  take, drop, lookup, filter_map, All, length-drop, take_of_length-le,
}
use guix_p2p.Crypto.{Bytes, Text, Crypto}
use guix_p2p.Swarm.Codec.{BlockData, BlockResponse}
use guix_p2p.Swarm.Block.{usize_mod, chunks}
use guix_p2p.Swarm.Block.Chunks.{get_elem?-chunks}
use guix_p2p.NarStore.{NarStore, Files, serve_block, serve_blocks}
use guix_p2p.NarStore.Soundness.{IsSound}

-- The chunk with this number, if the bytes have so many.
abbrev pub chunk_at : ℕ → Bytes → ℕ → Option BlockData
chunk_at size bytes i = elim (get_elem? (chunks size bytes) i) [
  | none ↦ none
  | some b ↦ some (record { index = i; bytes = b })
]

slice_rest :
    (size off : ℕ) (bytes : Bytes)
    → off < length bytes
    → take (min (off + size) (length bytes) - off) (drop off bytes) ≡ take size (drop off bytes)
slice_rest size off bytes h = elim (Bool-cases (leb (off + size) (length bytes))) [
  | inl whole ↦ ap (λ k. take k (drop off bytes)) (omega tests)
  | inr last ↦
      take_of_length-le _ (drop off bytes) (omega (tests, length-drop off bytes))
      ∙ sym (take_of_length-le size (drop off bytes) (omega (tests, length-drop off bytes)))
]

-- The offset and the end are those of the chunk, and there is none behind the last one.
serve_block-chunk_at :
    (size i : ℕ) (bytes : Bytes)
    → 0 < size
    → length bytes + size < usize_mod
    → i * size < usize_mod
    → serve_block size bytes i ≡ chunk_at size bytes i
unfolding serve_block
serve_block-chunk_at size i bytes pos fits small =
    let chunk = get_elem?-chunks size i bytes pos in
    elim (Bool-cases (leb (length bytes) (i * size))) [
      | inl behind ↦ ground (arith, behind, small, chunk)
      | inr inside ↦ ground (
        arith,
        inside,
        small,
        fits,
        chunk,
        slice_rest (i * size) size bytes,
        slice_rest size (i * size) bytes (omega tests),
      )
    ]

filter_map-chunk_at :
    (size : ℕ) (bytes : Bytes) (indices : List ℕ)
    → 0 < size
    → length bytes + size < usize_mod
    → All (λ i. i * size < usize_mod) indices
    → filter_map (serve_block size bytes) indices ≡ filter_map (chunk_at size bytes) indices
filter_map-chunk_at size bytes [] pos fits small = refl
filter_map-chunk_at size bytes (i ∷ indices) pos fits (first, small) = ground (
  arith,
  serve_block-chunk_at size i bytes pos fits first,
  filter_map-chunk_at size bytes indices pos fits small,
)

file_fits :
    (size : ℕ) (files : Files) (path : Text) (bytes : Bytes)
    → All (λ (f : Text × Bytes). length f.1 + size < usize_mod) files
    → lookup files path ≡ some bytes
    → length bytes + size < usize_mod
file_fits size [] path bytes h e = absurd (ground (arith, e))
file_fits size ((p, b) ∷ files) path bytes (first, h) e = elim (Bool-cases (p == path)) [
  | inl same ↦
      let here : b ≡ bytes = ground (arith, e, same) in
      subst (λ x. length x + size < usize_mod) here first
  | inr other ↦ file_fits size files path bytes h (ground (arith, e, other))
]

module _ (c : Crypto) where
  -- Where a sound store answers a request with blocks, they are chunks of one byte string, whose hash is
  -- the requested one: for each requested index, in order, the chunk with this number of those that
  -- `chunks` cuts, of which the store's block hashes are; an index behind the last chunk is passed over.
  -- The conditions: blocks are not empty, and neither the length of a file and a block nor the offset of
  -- a requested block reaches 2 ^ 64.
  pub serve_blocks-content :
      (store : NarStore) (files : Files) (key : Text) (indices : List ℕ) (blks : List BlockData)
      → IsSound c store files
      → 0 < store.block_size
      → All (λ (f : Text × Bytes). length f.1 + store.block_size < usize_mod) files
      → All (λ i. i * store.block_size < usize_mod) indices
      → serve_blocks store files key indices ≡ some (BlockResponse.blocks blks)
      → (bytes : Bytes) × (c.hex (c.sha256 bytes) ≡ key)
        × (blks ≡ filter_map (chunk_at store.block_size bytes) indices)
  unfolding serve_blocks
  serve_blocks-content store files key indices blks h pos fits small e =
      elim (Option-cases (lookup store.index key)) [
        | inl absent ↦ absurd (ground arith)
        | inr (entry, found) ↦ elim (Option-cases (lookup files entry.path)) [
          | inl unread ↦ absurd (ground arith)
          | inr (bytes, got) ↦
              let served : blks ≡ filter_map (serve_block store.block_size bytes) indices =
                ground arith in
              (
                bytes,
                h.content key entry bytes found got,
                served
                    ∙ filter_map-chunk_at store.block_size bytes indices pos
                        (file_fits store.block_size files entry.path bytes fits got) small,
              )
        ]
      ]
