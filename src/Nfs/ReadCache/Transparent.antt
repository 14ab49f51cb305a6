-- ===== src/Nfs/ReadCache/Transparent.antt =====
-- Sequences of reads through the read cache of nfs.go.
use gomodfs.Base.{ℕ, ◌≡◌, ◌≤◌, refl, Bytes, List, [], ◌∷◌, Option, none, some, false, beq, Result}
use gomodfs.Lru.{Heap, size}
use gomodfs.Lru.Refines.{empty_cache-Shows}
use gomodfs.Lru.Runs.{empty_cache}
use gomodfs.Nfs.ReadCache.{Entry, Files, get_file_contents}
use gomodfs.Nfs.ReadCache.Uses.{beq-IsEquality}
use gomodfs.Nfs.ReadCache.Holds.{file_of, Holds}
use gomodfs.Nfs.ReadCache.Reads.{get_file_contents-Holds, no_files-Holds}

-- the caches of an `FS` that was not used, on heaps of entries
unfoldable pub no_files : {A : Type 0} → Heap Bytes (Entry A) → Heap Bytes Bytes → Files A
unfolding empty_cache
no_files g h = record {
  ent_cache = empty_cache none 0 g;
  blob_cache = empty_cache none 0 h;
  blob_count = λ b. 0;
  counted = false;
}

module _ {A : Type 0} (sha256 : Bytes → Bytes) (max : ℕ) (path_of : Bytes → Result Bytes)
    (uncached : Bytes → Result (Bytes × A)) where
  -- the results of reads of the handles one after the other
  unfoldable pub read_files : List Bytes → Files A → Option (List (Result (Bytes × A)) × Files A)
  unfolding get_file_contents
  read_files [] s = some ([], s)
  read_files (h ∷ hs) s = elim (get_file_contents sha256 max path_of uncached h s) [
    | none ↦ none
    | some (r, s1) ↦ elim (read_files hs s1) [ none ↦ none | some (rs, s2) ↦ some (r ∷ rs, s2) ]
  ]

  abbrev pub results_of : List Bytes → List (Result (Bytes × A))
  results_of [] = []
  results_of (h ∷ hs) = file_of path_of uncached (path_of h) ∷ results_of hs

  read_files-next :
      (h : Bytes) (hs : List Bytes) (s s1 s2 : Files A) (r : Result (Bytes × A))
      (rs : List (Result (Bytes × A)))
      → get_file_contents sha256 max path_of uncached h s ≡ some (r, s1)
      → read_files hs s1 ≡ some (rs, s2)
      → read_files (h ∷ hs) s ≡ some (r ∷ rs, s2)
  unfolding read_files
  read_files-next h hs s s1 s2 r rs e1 e2 = rw (read_files, e1, e2) refl

  read_files-Holds :
      ((a b : Bytes) → sha256 a ≡ sha256 b → a ≡ b)
      → (hs : List Bytes) (s : Files A) → Holds path_of uncached sha256 max s
      → (s' : Files A) × (read_files hs s ≡ some (results_of hs, s'))
        × Holds path_of uncached sha256 max s'
  unfolding read_files
  read_files-Holds unique [] s v = (s, refl, v)
  read_files-Holds unique (h ∷ hs) s v =
      let g = get_file_contents-Holds path_of uncached sha256 max unique h s v in
      let (s2, run, v2) = read_files-Holds unique hs g.result g.holds in
      (
        s2,
        read_files-next h hs s g.result s2 (file_of path_of uncached (path_of h)) (results_of hs)
            g.returns run,
        v2,
      )

  -- The read cache cannot be seen, if SHA-256 has no collisions and the files do not change: reads
  -- of any handles in any order, from empty caches, give what reads without the cache give, errors
  -- included. No count of a blob goes below zero, no nil pointer is followed, the loops end, and
  -- the blobs never have more than `max` bytes together, even when one file is larger than that.
  pub read_files-uncached :
      ((a b : Bytes) → sha256 a ≡ sha256 b → a ≡ b)
      → (hs : List Bytes) (g : Heap Bytes (Entry A)) (h : Heap Bytes Bytes)
      → (s' : Files A) × (read_files hs (no_files g h) ≡ some (results_of hs, s'))
        × (size s'.blob_cache ≤ max)
  unfolding no_files
  read_files-uncached unique hs g h =
      let start =
        no_files-Holds path_of uncached sha256 max (no_files g h)
          (empty_cache-Shows beq beq-IsEquality none 0 g) none
          (empty_cache-Shows beq beq-IsEquality none 0 h) (λ b. refl) refl in
      let (s', run, v) = read_files-Holds unique hs (no_files g h) start in (s', run, v.within)
