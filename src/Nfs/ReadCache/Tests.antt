-- ===== src/Nfs/ReadCache/Tests.antt =====
-- Reads of small files through the read cache of nfs.go. A hash is the contents themselves, and a
-- handle is its path.
use gomodfs.Base.{
  ℕ, ◌≡◌, ◌≤◌, refl, Bytes, codes, List, [], ◌∷◌, Option, none, some, beq, if◌then◌else◌, Result,
  ok, err, not_exist,
}
use gomodfs.Lru.{
  Heap, update, link_in, unlink, cut_out, new_at_front, move_to_front, over, find, erase,
  delete_element, delete_oldest, evict, store, set, get_ok, peek_ok, delete, pop_oldest, size, len,
}
use gomodfs.Lru.Runs.{empty_cache}
use gomodfs.Nfs.ReadCache.{
  Entry, Files, with_count, decr_blob_count, init_counts, give_back, put_entry, next_round, shrink,
  shrunk, set_read_cache, cached_file, get_file_contents,
}
use gomodfs.Nfs.ReadCache.Transparent.{no_files, read_files, results_of, read_files-uncached}

abbrev no_entries : Heap Bytes (Entry ℕ)
no_entries = record {
  prev = λ a. 0;
  next = λ a. 0;
  key = λ a. [];
  value = λ a. record { attr = 0; blob_hash = [] };
  fresh = 1;
}

abbrev no_blobs : Heap Bytes Bytes
no_blobs = record { prev = λ a. 0; next = λ a. 0; key = λ a. []; value = λ a. []; fresh = 1 }

abbrev path_at : Bytes → Result Bytes
path_at h = ok h

-- two files with the same contents, and a third
abbrev file_at : Bytes → Result (Bytes × ℕ)
file_at p =
    if beq p (codes "a")
    then ok (codes "xyz", 1)
    else if beq p (codes "b")
    then ok (codes "xyz", 2)
    else if beq p (codes "c")
    then ok (codes "12345", 3)
    else err not_exist

abbrev handles : List Bytes
handles = codes "a" ∷ codes "b" ∷ codes "d" ∷ codes "a" ∷ codes "c" ∷ codes "b" ∷ []

-- how many entries, blobs and bytes the caches have at the end
abbrev sizes_of : {R : Type 0} → Option (R × Files ℕ) → ℕ × ℕ × ℕ
sizes_of none = (0, 0, 0)
sizes_of (some (r, s)) = (len s.ent_cache, len s.blob_cache, size s.blob_cache)

two_files_share :
    sizes_of (
      read_files
        (λ b. b)
        6
        path_at
        file_at
        (codes "a" ∷ codes "b" ∷ [])
        (no_files no_entries no_blobs))
    ≡ (2, 1, 3)
unfolding read_files no_files empty_cache get_file_contents cached_file set_read_cache init_counts
    give_back put_entry shrunk shrink next_round decr_blob_count with_count beq set store evict over
    delete_oldest delete_element new_at_front move_to_front link_in unlink cut_out update find erase
    get_ok peek_ok delete pop_oldest
two_files_share = refl

third_evicts :
    sizes_of (read_files (λ b. b) 6 path_at file_at handles (no_files no_entries no_blobs))
    ≡ (1, 1, 3)
unfolding read_files no_files empty_cache get_file_contents cached_file set_read_cache init_counts
    give_back put_entry shrunk shrink next_round decr_blob_count with_count beq set store evict over
    delete_oldest delete_element new_at_front move_to_front link_in unlink cut_out update find erase
    get_ok peek_ok delete pop_oldest
third_evicts = refl

read_files-uncached_example :
    (s' : Files ℕ) × (read_files (λ b. b) 6 path_at file_at handles (no_files no_entries no_blobs)
      ≡ some (results_of (λ b. b) 6 path_at file_at handles, s'))
    × (size s'.blob_cache ≤ 6)
read_files-uncached_example =
    read_files-uncached (λ b. b) 6 path_at file_at (λ a b e. e) handles no_entries no_blobs
