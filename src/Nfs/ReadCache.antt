-- ===== src/Nfs/ReadCache.antt =====
-- nfs.go: the cache of files that were read. An entry of a handle has the hash of the contents,
-- under which a second cache has them once for all handles. Both are caches of internal/lru/lru.go.
-- `none` is a panic or a nil pointer. Metrics and logs are left out.
pub mod Uses
pub mod Valid
pub mod Steps
pub mod Holds
pub mod Fills
pub mod Hits
pub mod Reads
pub mod Transparent
mod Tests
use gomodfs.Base.{
  ℕ, zero, suc, ◌+◌, ◌-◌, ◌==◌, ltb, Bytes, List, [], ◌∷◌, Option, none, some, Bool, true, false,
  if◌then◌else◌, beq, length, Result, ok, err, stale, other,
}
use gomodfs.Lru.{Cache, set, get_ok, peek_ok, delete, pop_oldest, size, len}

-- `readCacheEntry`, with attributes of any type
pub record Entry (A : Type 0) : Type 0 where
  pub attr : A
  pub blob_hash : Bytes

-- `entCache`, `blobCache` and `blobCount` of `FS`; a count that is missing is 0, and `counted`
-- tells that the map is not nil
pub record Files (A : Type 0) : Type 0 where
  pub ent_cache : Cache Bytes (Entry A)
  pub blob_cache : Cache Bytes Bytes
  pub blob_count : Bytes → ℕ
  pub counted : Bool

-- the counts with the count `n` of `b`
unfoldable pub with_count : Bytes → ℕ → (Bytes → ℕ) → Bytes → ℕ
unfolding beq
with_count b n f x = if beq b x then n else f x

module _ {A : Type 0} where
  -- `decrBlobCountLocked`
  unfoldable pub decr_blob_count : Bytes → Files A → Option (Files A)
  unfolding with_count
  decr_blob_count b s =
      let v = s.blob_count b in
      if v == 0
      then none
      else if v == 1
      then some (record s {
        blob_count = with_count b 0 s.blob_count;
        blob_cache = delete beq b s.blob_cache;
      })
      else some (record s { blob_count = with_count b (v - 1) s.blob_count })

  -- the first lines of `setReadCache`
  unfoldable pub init_counts : Files A → Files A
  init_counts s = if s.counted then s else record s {
    blob_count = λ b. 0;
    counted = true;
    blob_cache = record s.blob_cache { size_of_entry = some (λ (k v : Bytes). length v) };
  }

  -- an entry of the handle that is replaced gives its blob back
  unfoldable pub give_back : Option (Entry A) → Files A → Option (Files A)
  unfolding decr_blob_count
  give_back none s = some s
  give_back (some was) s = decr_blob_count was.blob_hash s

  -- `setReadCache` up to its loop
  unfoldable pub put_entry : Bytes → Entry A → Bytes → Files A → Option (Files A)
  unfolding with_count
  put_entry h ent contents s = elim (set beq h ent s.ent_cache) [
    | none ↦ none
    | some ents ↦ elim (set beq ent.blob_hash contents s.blob_cache) [
      | none ↦ none
      | some blobs ↦ some (record s {
        ent_cache = ents;
        blob_count = with_count ent.blob_hash (suc (s.blob_count ent.blob_hash)) s.blob_count;
        blob_cache = blobs;
      })
    ]
  ]

  -- a round of the loop of `setReadCache` with the entry that was deleted, if there was one
  unfoldable pub next_round :
      (Files A → Option (Files A))
      → Files A
      → Option (Bytes × Entry A) × Cache Bytes (Entry A)
      → Option (Files A)
  unfolding decr_blob_count
  next_round rest s (none, ents) = some (record s { ent_cache = ents })
  next_round rest s (some (h, e), ents) =
      elim (decr_blob_count e.blob_hash (record s { ent_cache = ents })) [
        | none ↦ none
        | some s' ↦ rest s'
      ]

  -- the loop of `setReadCache`, on fuel: every round deletes an entry
  unfoldable pub shrink : ℕ → ℕ → Files A → Option (Files A)
  unfolding next_round
  shrink zero max s = none
  shrink (suc fuel) max s =
      let round = next_round (shrink fuel max) s (pop_oldest beq s.ent_cache) in
      if ltb max (size s.blob_cache) then round else some s

  unfoldable pub shrunk : ℕ → Option (Files A) → Option (Files A)
  unfolding shrink
  shrunk max none = none
  shrunk max (some s) = shrink (suc (len s.ent_cache)) max s

  -- what the caches have for a handle: the contents and attributes of a hit
  unfoldable pub cached_file : Bytes → Files A → Option (Option (Bytes × A) × Files A)
  cached_file h s = elim (get_ok beq h s.ent_cache) [
    | none ↦ none
    | some (found, ents) ↦ elim found [
      | none ↦ some (none, record s { ent_cache = ents })
      | some ent ↦ elim (get_ok beq ent.blob_hash s.blob_cache) [
        | none ↦ none
        | some (blob, blobs) ↦
            let s1 = record s { ent_cache = ents; blob_cache = blobs } in
            elim blob [ none ↦ some (none, s1) | some b ↦ some (some (b, ent.attr), s1) ]
      ]
    ]
  ]

module _ {A : Type 0} (sha256 : Bytes → Bytes) (max : ℕ) where
  -- `setReadCache`, with the limit of `GetFileCacheSize`
  unfoldable pub set_read_cache : Bytes → A → Bytes → Files A → Option (Files A)
  unfolding init_counts give_back put_entry shrunk
  set_read_cache h attr contents s =
      let ent : Entry A = record { attr = attr; blob_hash = sha256 contents } in
      let s1 = init_counts s in
      elim (give_back (peek_ok beq h s1.ent_cache) s1) [
        | none ↦ none
        | some s2 ↦ shrunk max (put_entry h ent contents s2)
      ]

  -- `getFileContents`, with `fromHandle` and `getFileContentsUncached`, which here only read
  unfoldable pub get_file_contents :
      (path_of : Bytes → Result Bytes)
      → (uncached : Bytes → Result (Bytes × A)) → Bytes
      → Files A
      → Option (Result (Bytes × A) × Files A)
  unfolding cached_file set_read_cache
  get_file_contents path_of uncached h s = elim (cached_file h s) [
    | none ↦ none
    | some (some file, s1) ↦ some (ok file, s1)
    | some (none, s1) ↦ elim (path_of h) [
      | err e ↦ some (err (stale other), s1)
      | ok path ↦ elim (uncached path) [
        | err e ↦ some (err e, s1)
        | ok file ↦ elim (set_read_cache h file.1 file.0 s1) [
          | none ↦ none
          | some s2 ↦ some (ok file, s2)
        ]
      ]
    ]
  ]
