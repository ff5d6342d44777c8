-- ===== src/Tests/Stores.antt =====
-- src/nar_store.rs: a directory that is scanned, a NAR that is saved, and its blocks.
use guix_p2p.Prelude.{
  ap, ◌≡◌, refl, Bool, true, false, none, some, List, [], ◌∷◌, arith, nat_eq, text_eq, All,
  filter_map,
}
use guix_p2p.Crypto.{Bytes, Text}
use guix_p2p.Text.{chars}
use guix_p2p.Swarm.Codec.{BlockData, BlockResponse}
use guix_p2p.Swarm.Block.{from_file_size}
use guix_p2p.NarStore.{
  NarStore, Files, MetadataFormat, downloaded, save_with_source, serve_blocks, has_nar, nar_path,
  written,
}
use guix_p2p.NarStore.Index.{DirEntry, scan}
use guix_p2p.NarStore.Soundness.{IsSound, Lists, scan-IsSound, save-IsSound}
use guix_p2p.NarStore.Served.{chunk_at, serve_blocks-content}
use guix_p2p.Tests.Sample.{padding, nar}

abbrev format : MetadataFormat
format = record { encode = λ m. []; decode = λ b. none }

abbrev empty : NarStore
empty = record { cache_dir = chars "d"; block_size = 2; index = [] }

empty-IsSound : (files : Files) → IsSound padding empty files
empty-IsSound files = record {
  located = λ key entry e. absurd (ground arith);
  content = λ key entry bytes e h. absurd (ground arith);
}

abbrev key : Text
key = padding.hex (padding.sha256 nar)

-- A file under its hash, and one under a wrong name.
abbrev files : Files
files = (nar_path (chars "d") key, nar) ∷ (nar_path (chars "d") (chars "x"), 9 ∷ []) ∷ []

abbrev listing : List DirEntry
listing =
    record {
      path = nar_path (chars "d") (chars "x");
      is_nar = true;
      stem = some (chars "x");
      content = some (9 ∷ []);
    }
    ∷ record { path = nar_path (chars "d") key; is_nar = true; stem = some key; content = some nar }
    ∷ []

abbrev scanned : NarStore
scanned = elim (scan padding format files empty listing) [ none ↦ empty | some s ↦ s ]

scanned_lem : scan padding format files empty listing ≡ some scanned
unfolding scan from_file_size
scanned_lem = refl

same_path : (a b : Text) → a ≡ b → nar_path (chars "d") a ≡ nar_path (chars "d") b
same_path a b e = ap (nar_path (chars "d")) e

listed : All (Lists padding empty files) listing
unfolding nar_path
listed = (
  record {
    read = λ bytes e. e;
    named = λ stem i e. same_path (chars "x") stem (ground (arith, e));
  },
  (record { read = λ bytes e. e; named = λ stem i e. same_path key stem (ground (arith, e)) }, tt),
)

scan-IsSound_example : IsSound padding scanned files
scan-IsSound_example =
    scan-IsSound padding format files empty scanned listing (empty-IsSound files) listed scanned_lem

abbrev saved : NarStore × Files × Bool
saved = elim (save_with_source format written written 3 empty [] key nar none downloaded) [
  | none ↦ (empty, [], false)
  | some r ↦ r
]

saved_lem :
    save_with_source format written written 3 empty [] key nar none downloaded
    ≡ some (saved.0, saved.1, saved.2)
unfolding save_with_source from_file_size
saved_lem = refl

free : has_nar empty key ≡ false
unfolding has_nar
free = refl

save-IsSound_example : IsSound padding saved.0 saved.1
save-IsSound_example =
    save-IsSound padding format written written 3 empty saved.0 [] saved.1 key nar none downloaded
      saved.2 (empty-IsSound []) free refl saved_lem

abbrev served : List BlockData
served = record { index = 2; bytes = 5 ∷ [] } ∷ record { index = 0; bytes = 1 ∷ 2 ∷ [] } ∷ []

served_lem : serve_blocks scanned files key (2 ∷ 9 ∷ 0 ∷ []) ≡ some (BlockResponse.blocks served)
unfolding serve_blocks scan from_file_size nar_path
served_lem = refl

serve_blocks-content_example :
    (bytes : Bytes) × (padding.hex (padding.sha256 bytes) ≡ key)
    × (served ≡ filter_map (chunk_at scanned.block_size bytes) (2 ∷ 9 ∷ 0 ∷ []))
unfolding scan from_file_size
serve_blocks-content_example =
    serve_blocks-content padding scanned files key (2 ∷ 9 ∷ 0 ∷ []) served scan-IsSound_example
      (omega arith) (omega arith, (omega arith, tt)) (omega arith, (omega arith, (omega arith, tt)))
      served_lem
