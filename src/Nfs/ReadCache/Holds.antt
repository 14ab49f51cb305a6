-- ===== src/Nfs/ReadCache/Holds.antt =====
-- The read cache of nfs.go against the files themselves.
use gomodfs.Base.{
  ℕ, ◌≡◌, ◌≤◌, inl, inr, refl, Bytes, List, [], Option, none, some, true, false, Bool-cases,
  none-ne-some, beq, length, Result, ok, err, stale, other,
}
use gomodfs.Lru.{size}
use gomodfs.Lru.Spec.{lookup_of}
use gomodfs.Lru.Resizes.{resized}
use gomodfs.Lru.Shows.{Shows}
use gomodfs.Nfs.ReadCache.{Entry, Files, init_counts}
use gomodfs.Nfs.ReadCache.Uses.{uses}
use gomodfs.Nfs.ReadCache.Valid.{Balanced}
use gomodfs.Nfs.ReadCache.Steps.{no_blobs}

-- the size of a blob
abbrev pub by_length : Option (Bytes → Bytes → ℕ)
by_length = some (λ k v. length v)

module _ {A : Type 0} (path_of : Bytes → Result Bytes) (uncached : Bytes → Result (Bytes × A)) where
  -- what a read of the file of a handle gives without a cache
  abbrev pub file_of : Result Bytes → Result (Bytes × A)
  file_of (err e) = err (stale other)
  file_of (ok path) = uncached path

  module _ (sha256 : Bytes → Bytes) (max : ℕ) where
    -- the entry has the attributes of the file and the hash of its contents
    abbrev pub IsOf : Bytes → Entry A → Type 0
    IsOf h e = (c : Bytes) × (file_of (path_of h) ≡ ok (c, e.attr)) × (sha256 c ≡ e.blob_hash)

    pub record Holds (s : Files A) : Type 0 where
      pub le : List (Bytes × Entry A)
      pub lb : List (Bytes × Bytes)
      pub sizes : Option (Bytes → Bytes → ℕ)
      pub ents : Shows beq none 0 s.ent_cache le
      pub blobs : Shows beq sizes 0 s.blob_cache lb
      pub balanced : Balanced sha256 s.blob_count le lb
      pub right : (h : Bytes) (e : Entry A) → lookup_of beq h le ≡ some e → IsOf h e
      pub within : size s.blob_cache ≤ max
      pub by_bytes : s.counted ≡ true → sizes ≡ by_length
      pub unused : s.counted ≡ false → le ≡ []

    init_counts_done : (s : Files A) → s.counted ≡ true → init_counts s ≡ s
    unfolding init_counts
    init_counts_done s h = rw (init_counts, h) refl

    init_counts_new :
        (s : Files A)
        → s.counted ≡ false
        → init_counts s ≡ record s {
          blob_count = λ b. 0;
          counted = true;
          blob_cache = record s.blob_cache { size_of_entry = by_length };
        }
    unfolding init_counts
    init_counts_new s h = rw (init_counts, h) refl

    -- the counts are made when they are first used
    pub init_counts-Holds :
        (s : Files A)
        → Holds s
        → (s' : Files A) × (init_counts s ≡ s') × Holds s' × (s'.counted ≡ true)
    unfolding uses lookup_of
    init_counts-Holds s holds = elim (Bool-cases s.counted) [
      | inl is ↦ (s, init_counts_done s is, holds, is)
      | inr is ↦
          let no_ents = holds.unused is in
          let no_lb = no_blobs sha256 s.blob_count holds.lb (rw no_ents at holds.balanced) in
          let blobs =
            resized beq holds.sizes by_length 0 0 s.blob_cache.max_size s.blob_cache
              holds.blobs.limit (rw no_lb at holds.blobs) in
          (
            record s {
              blob_count = λ b. 0;
              counted = true;
              blob_cache = record s.blob_cache { size_of_entry = by_length };
            },
            init_counts_new s is,
            record {
              le = [];
              lb = [];
              sizes = by_length;
              ents = rw no_ents at holds.ents;
              blobs = blobs;
              balanced = record {
                keys = tt;
                counts = λ b. refl;
                held = λ b. refl;
                hashes = λ b c e. absurd (none-ne-some e);
              };
              right = λ h e f. absurd (none-ne-some f);
              within = holds.within;
              by_bytes = λ e. refl;
              unused = λ e. refl;
            },
            refl,
          )
    ]
