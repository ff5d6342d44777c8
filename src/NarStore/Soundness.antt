-- ===== src/NarStore/Soundness.antt =====
-- The store serves what its keys promise: the file behind every entry has the hash of its key.
use mathlib.Core.List.{append_cancel_left, append_cancel_right}
use guix_p2p.Prelude.{
  ==_refl, subst, All, Option-cases, ℕ, ◌≡◌, refl, sym, ap, ◌∙◌, ◌≢◌, inl, inr, true, some, List,
  [], ◌∷◌, ◌++◌, arith, Bool-cases, nat_eq, text_beq, text_eq, ==→≡, lookup, insert, lookup-insert,
}
use guix_p2p.Crypto.{Bytes, Text, Crypto}
use guix_p2p.Text.{chars}
use guix_p2p.NarStore.{
  written, not_created, take, stopped_after, Bool, SeedSource, Option, WriteOutcome, has_nar,
  write_metadata, save_with_source, cache, read_metadata, length, from_file_size, MetadataFormat,
  none, false, NarEntry, NarStore, Files, nar_path, metadata_path,
}
use guix_p2p.NarStore.Index.{index_file, scan_entry, scan, DirEntry}

last_or : ℕ → Text → ℕ
last_or d [] = d
last_or d (x ∷ xs) = last_or x xs

last_or-append : (d : ℕ) (xs : Text) (y : ℕ) (ys : Text) → last_or d (xs ++ (y ∷ ys)) ≡ last_or y ys
unfolding last_or
last_or-append d [] y ys = refl
last_or-append d (x ∷ xs) y ys = last_or-append x xs y ys

nar_path-injective : (dir a b : Text) → nar_path dir a ≡ nar_path dir b → a ≡ b
unfolding nar_path
nar_path-injective dir a b e =
    append_cancel_right a b (chars ".nar")
      (append_cancel_left (chars "/") _ _ (append_cancel_left dir _ _ e))

-- A sidecar is never the file of a NAR.
nar_path-ne-metadata_path : (dir a b : Text) → nar_path dir a ≢ metadata_path dir b
unfolding nar_path metadata_path last_or
nar_path-ne-metadata_path dir a b e =
    let names : a ++ chars ".nar" ≡ b ++ chars ".json" =
      append_cancel_left (chars "/") _ _ (append_cancel_left dir _ _ e) in
    absurd (
      omega (
        arith,
        sym (last_or-append 0 a b'.' (chars "nar"))
            ∙ ap (last_or 0) names
            ∙ last_or-append 0 b b'.' (chars "json"),
      ))

module _ (c : Crypto) where
  -- Every entry's file stands at the path of its key; where it can be read, its SHA-256 text is the
  -- key.
  pub record IsSound (store : NarStore) (files : Files) : Type 0 where
    pub located :
        (key : Text) (entry : NarEntry)
        → lookup store.index key ≡ some entry
        → entry.path ≡ nar_path store.cache_dir key
    pub content :
        (key : Text) (entry : NarEntry) (bytes : Bytes)
        → lookup store.index key ≡ some entry
        → lookup files entry.path ≡ some bytes
        → c.hex (c.sha256 bytes) ≡ key

  IsSound-insert :
      (store : NarStore) (files : Files) (key : Text) (entry : NarEntry)
      → IsSound store files
      → entry.path ≡ nar_path store.cache_dir key
      → ((bytes : Bytes) → lookup files entry.path ≡ some bytes → c.hex (c.sha256 bytes) ≡ key)
      → IsSound (record store { index = insert store.index key entry }) files
  IsSound-insert store files key entry h path hashed = record {
    located = λ k e found. elim (Bool-cases (text_beq key k)) [
      | inl same ↦
          let here : entry ≡ e = ground (arith, lookup-insert store.index key k entry) in
          let name : key ≡ k = ==→≡ {A = Text} key k same in rw (← here, ← name) path
      | inr other ↦ h.located k e (ground (arith, lookup-insert store.index key k entry))
    ];
    content = λ k e bytes found got. elim (Bool-cases (text_beq key k)) [
      | inl same ↦
          let here : entry ≡ e = ground (arith, lookup-insert store.index key k entry) in
          let name : key ≡ k = ==→≡ {A = Text} key k same in
          rw (← name) (hashed bytes (ap (λ (x : NarEntry). lookup files x.path) here ∙ got))
      | inr other ↦ h.content k e bytes (ground (arith, lookup-insert store.index key k entry)) got
    ];
  }

  -- What `read_dir` and `read` promise of a listed file.
  pub record Lists (store : NarStore) (files : Files) (e : DirEntry) : Type 0 where
    pub read : (bytes : Bytes) → e.content ≡ some bytes → lookup files e.path ≡ some bytes
    pub named :
        (stem : Text)
        → e.is_nar ≡ true
        → e.stem ≡ some stem
        → e.path ≡ nar_path store.cache_dir stem

  index_file-IsSound :
      (format : MetadataFormat) (files : Files) (store store' : NarStore) (path stem : Text)
      (bytes : Bytes)
      → IsSound store files
      → path ≡ nar_path store.cache_dir stem
      → lookup files path ≡ some bytes
      → index_file c format files store path stem bytes ≡ some store'
      → IsSound store' files × (store'.cache_dir ≡ store.cache_dir)
  unfolding index_file
  index_file-IsSound format files store store' path stem bytes h name there e =
      elim (Bool-cases (text_beq (c.hex (c.sha256 bytes)) stem)) [
        | inr differs ↦ let same : store ≡ store' = ground arith in (rw (← same) h, ground arith)
        | inl agrees ↦ elim (Option-cases (from_file_size (length bytes) store.block_size)) [
          | inl panic ↦ absurd (ground arith)
          | inr (info, cut) ↦
              let metadata = read_metadata format store files stem in
              let entry : NarEntry = record {
                path = path;
                nar_size = length bytes;
                block_info = info;
                store_path = elim metadata [ none ↦ none | some m ↦ m.store_path ];
                source = elim metadata [ none ↦ cache | some m ↦ m.source ];
                created_at = elim metadata [ none ↦ 0 | some m ↦ m.created_at ];
              } in
              let same : record store { index = insert store.index stem entry } ≡ store' =
                ground arith in
              (
                subst (λ (s : NarStore). IsSound s files) same
                    (IsSound-insert store files stem entry h name
                      (λ bytes' got. ==→≡ {A = Text} _ stem (ground (arith, got, there)))),
                ground arith,
              )
        ]
      ]

  scan_entry-IsSound :
      (format : MetadataFormat) (files : Files) (store store' : NarStore) (entry : DirEntry)
      → IsSound store files
      → Lists store files entry
      → scan_entry c format files store entry ≡ some store'
      → IsSound store' files × (store'.cache_dir ≡ store.cache_dir)
  unfolding scan_entry
  scan_entry-IsSound format files store store' entry h listed e = elim (Bool-cases entry.is_nar) [
    | inr other ↦ let same : store ≡ store' = ground arith in (rw (← same) h, ground arith)
    | inl nar ↦ elim (Option-cases entry.stem) [
      | inl no_text ↦ let same : store ≡ store' = ground arith in (rw (← same) h, ground arith)
      | inr (stem, named) ↦ elim (Option-cases entry.content) [
        | inl unread ↦ let same : store ≡ store' = ground arith in (rw (← same) h, ground arith)
        | inr (bytes, got) ↦
            index_file-IsSound format files store store' entry.path stem bytes h
              (listed.named stem nar named) (listed.read bytes got) (ground arith)
      ]
    ]
  ]

  -- A scan of the cache directory into a sound store that does not panic, whatever stands in the
  -- directory, gives a store in which every readable file has the hash of its key: files under a
  -- wrong name are not indexed.
  pub scan-IsSound :
      (format : MetadataFormat) (files : Files) (store store' : NarStore) (entries : List DirEntry)
      → IsSound store files
      → All (Lists store files) entries
      → scan c format files store entries ≡ some store'
      → IsSound store' files
  unfolding scan
  scan-IsSound format files store store' [] h listed e =
      let same : store ≡ store' = ground arith in rw (← same) h
  scan-IsSound format files store store' (entry ∷ entries) h listed e =
      elim (Option-cases (scan_entry c format files store entry)) [
        | inl panic ↦ absurd (ground arith)
        | inr (mid, step) ↦
            let (sound, dir) = scan_entry-IsSound format files store mid entry h listed.0 step in
            scan-IsSound format files mid store' entries sound
              (relist store mid entries dir listed.1) (ground arith)
      ]
    where
      relist :
          (store mid : NarStore) (entries : List DirEntry)
          → mid.cache_dir ≡ store.cache_dir
          → All (Lists store files) entries
          → All (Lists mid files) entries
      relist store mid [] dir l = tt
      relist store mid (x ∷ xs) dir l = (
        record {
          read = l.0.read;
          named = λ stem nar named. l.0.named stem nar named ∙ ap (λ d. nar_path d stem) (sym dir);
        },
        relist store mid xs dir l.1,
      )

  -- Writing the file of a key that is not in the store leaves the other files as they were.
  IsSound-write :
      (store : NarStore) (files : Files) (key : Text) (bytes : Bytes)
      → IsSound store files
      → lookup store.index key ≡ none
      → IsSound store (insert files (nar_path store.cache_dir key) bytes)
  IsSound-write store files key bytes h free = record {
    located = h.located;
    content = λ k e b found got. h.content k e b found (
        ground (
          arith,
          lookup-insert files (nar_path store.cache_dir key) e.path bytes,
          ==→≡ {A = Text} (nar_path store.cache_dir key) e.path,
          h.located k e found,
          other_file k e found,
        ));
  }
    where
      other_file :
          (k : Text) (e : NarEntry)
          → lookup store.index k ≡ some e
          → text_beq (nar_path store.cache_dir key) e.path ≡ false
      other_file k e found = elim (Bool-cases (text_beq (nar_path store.cache_dir key) e.path)) [
        | inr differ ↦ differ
        | inl same ↦
            let names : key ≡ k =
              nar_path-injective store.cache_dir key k (
                ==→≡ {A = Text} (nar_path store.cache_dir key) e.path same ∙ h.located k e found) in
            absurd (cc (free, found, ap (lookup store.index) names))
      ]

  -- Writing a sidecar leaves the files of the NARs as they were.
  IsSound-sidecar :
      (store : NarStore) (files : Files) (key : Text) (bytes : Bytes)
      → IsSound store files
      → IsSound store (insert files (metadata_path store.cache_dir key) bytes)
  IsSound-sidecar store files key bytes h = record {
    located = h.located;
    content = λ k e b found got. h.content k e b found (
        ground (
          arith,
          lookup-insert files (metadata_path store.cache_dir key) e.path bytes,
          other_file k e found,
        ));
  }
    where
      other_file :
          (k : Text) (e : NarEntry)
          → lookup store.index k ≡ some e
          → text_beq (metadata_path store.cache_dir key) e.path ≡ false
      other_file k e found =
          elim (Bool-cases (text_beq (metadata_path store.cache_dir key) e.path)) [
            | inr differ ↦ differ
            | inl same ↦ absurd (
                nar_path-ne-metadata_path store.cache_dir k key (
                  sym (h.located k e found)
                  ∙ sym (==→≡ {A = Text} (metadata_path store.cache_dir key) e.path same)))
          ]

  write_metadata-IsSound :
      (format : MetadataFormat) (outcome : WriteOutcome) (now : ℕ) (store : NarStore)
      (files : Files) (key : Text) (path : Option Text) (source : SeedSource) (at : ℕ)
      → IsSound store files
      → IsSound store (write_metadata format outcome now store files key path source at).0
  unfolding write_metadata
  write_metadata-IsSound format not_created now store files key path source at h = h
  write_metadata-IsSound format (stopped_after n) now store files key path source at h =
      IsSound-sidecar store files key _ h
  write_metadata-IsSound format written now store files key path source at h =
      IsSound-sidecar store files key _ h

  -- Saving bytes under their own hash, as a key that the store does not have, keeps the store sound,
  -- whatever the two writes do: an unfinished file is not indexed.
  pub save-IsSound :
      (format : MetadataFormat) (nar meta : WriteOutcome) (now : ℕ) (store store' : NarStore)
      (files files' : Files) (key : Text) (bytes : Bytes) (path : Option Text) (source : SeedSource)
      (ok : Bool)
      → IsSound store files
      → has_nar store key ≡ false
      → c.hex (c.sha256 bytes) ≡ key
      → save_with_source format nar meta now store files key bytes path source
        ≡ some (store', files', ok)
      → IsSound store' files'
  unfolding save_with_source has_nar
  save-IsSound format not_created meta now store store' files files' key bytes path source ok h free
        hashed e =
      let s : store ≡ store' = ground arith in
      let f : files ≡ files' = ground arith in rw (← s, ← f) h
  save-IsSound format (stopped_after n) meta now store store' files files' key bytes path source ok
        h free hashed e =
      let s : store ≡ store' = ground arith in
      let f : insert files (nar_path store.cache_dir key) (take n bytes) ≡ files' = ground arith in
      rw (← s, ← f) (IsSound-write store files key (take n bytes) h (ground arith))
  save-IsSound format written meta now store store' files files' key bytes path source ok h free
        hashed e =
      elim (Option-cases (from_file_size (length bytes) store.block_size)) [
        | inl panic ↦ absurd (ground arith)
        | inr (info, cut) ↦
            let file = nar_path store.cache_dir key in
            let files₁ : Files = insert files file bytes in
            let entry : NarEntry = record {
              path = file;
              nar_size = length bytes;
              block_info = info;
              store_path = path;
              source = source;
              created_at = elim (read_metadata format store files key) [
                | none ↦ now
                | some m ↦ m.created_at
              ];
            } in
            let store₁ : NarStore = record store { index = insert store.index key entry } in
            let s : store₁ ≡ store' = ground arith in
            let f : (write_metadata format meta now store₁ files₁ key path source
                  entry.created_at).0
                ≡ files' =
              ground arith in
            let sound : IsSound store₁ files₁ =
              IsSound-insert store files₁ key entry
                (IsSound-write store files key bytes h (ground arith)) refl
                (λ b got.
                  ground (arith, lookup-insert files file file bytes, ==_refl {A = Text} file)) in
            rw (← s, ← f)
              (write_metadata-IsSound format meta now store₁ files₁ key path source entry.created_at
                sound)
      ]
