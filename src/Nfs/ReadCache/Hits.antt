-- ===== src/Nfs/ReadCache/Hits.antt =====
-- What the read cache of nfs.go has for a handle.
use gomodfs.Base.{
  ℕ, ◌≡◌, inl, inr, refl, arith, Bytes, List, Option, none, some, Option-cases, none-ne-some, beq,
  sym, ◌∙◌, Result, ok,
}
use gomodfs.Lru.{Cache, get_ok}
use gomodfs.Lru.Spec.{lookup_of, touched}
use gomodfs.Lru.Shows.{Shows, size-Shows}
use gomodfs.Lru.Reads.{get_ok-Shows}
use gomodfs.Lru.Bounds.{total_of-touched}
use gomodfs.Lru.Keys.{Once-touched, lookup_of-touched}
use gomodfs.Nfs.ReadCache.{Entry, Files, cached_file}
use gomodfs.Nfs.ReadCache.Uses.{uses-touched, beq-IsEquality}
use gomodfs.Nfs.ReadCache.Valid.{Balanced}
use gomodfs.Nfs.ReadCache.Holds.{file_of, Holds}

module _ {A : Type 0} (path_of : Bytes → Result Bytes) (uncached : Bytes → Result (Bytes × A))
    (sha256 : Bytes → Bytes) (max : ℕ) where
  -- what the caches give for a handle
  pub record Looked (h : Bytes) (s : Files A) : Type 0 where
    pub found : Option (Bytes × A)
    pub result : Files A
    pub returns : cached_file h s ≡ some (found, result)
    pub holds : Holds path_of uncached sha256 max result
    pub is_file :
        (file : Bytes × A) → found ≡ some file → file_of path_of uncached (path_of h) ≡ ok file

  cached-missing :
      (h : Bytes) (s : Files A) (ents : Cache Bytes (Entry A))
      → get_ok beq h s.ent_cache ≡ some (none, ents)
      → cached_file h s ≡ some (none, record s { ent_cache = ents })
  unfolding cached_file
  cached-missing h s ents e = rw (cached_file, e) refl

  cached-no_blob :
      (h : Bytes) (ent : Entry A) (s : Files A) (ents : Cache Bytes (Entry A))
      (blobs : Cache Bytes Bytes)
      → get_ok beq h s.ent_cache ≡ some (some ent, ents)
      → get_ok beq ent.blob_hash s.blob_cache ≡ some (none, blobs)
      → cached_file h s ≡ some (none, record s { ent_cache = ents; blob_cache = blobs })
  unfolding cached_file
  cached-no_blob h ent s ents blobs e1 e2 = rw (cached_file, e1, e2) refl

  cached-blob :
      (h b : Bytes) (ent : Entry A) (s : Files A) (ents : Cache Bytes (Entry A))
      (blobs : Cache Bytes Bytes)
      → get_ok beq h s.ent_cache ≡ some (some ent, ents)
      → get_ok beq ent.blob_hash s.blob_cache ≡ some (some b, blobs)
      → cached_file h s
        ≡ some (some (b, ent.attr), record s { ent_cache = ents; blob_cache = blobs })
  unfolding cached_file
  cached-blob h b ent s ents blobs e1 e2 = rw (cached_file, e1, e2) refl

  touched_ents-Balanced :
      (h : Bytes) (count : Bytes → ℕ) (le : List (Bytes × Entry A)) (lb : List (Bytes × Bytes))
      → Balanced sha256 count le lb
      → Balanced sha256 count (touched beq h le) lb
  touched_ents-Balanced h count le lb v = record {
    keys = Once-touched beq beq-IsEquality h le v.keys;
    counts = λ x. v.counts x ∙ sym (uses-touched x h le v.keys);
    held = λ x. rw (uses-touched x h le v.keys) (v.held x);
    hashes = v.hashes;
  }

  touched_blobs-Balanced :
      (b : Bytes) (count : Bytes → ℕ) (le : List (Bytes × Entry A)) (lb : List (Bytes × Bytes))
      → Balanced sha256 count le lb
      → Balanced sha256 count le (touched beq b lb)
  touched_blobs-Balanced b count le lb v = record {
    keys = v.keys;
    counts = v.counts;
    held = λ x. rw (lookup_of-touched beq beq-IsEquality x b lb) (v.held x);
    hashes = λ x c e. v.hashes x c (sym (lookup_of-touched beq beq-IsEquality x b lb) ∙ e);
  }

  -- the entry of the handle comes to the front
  touched_ents-Holds :
      (h : Bytes) (s : Files A) (ents : Cache Bytes (Entry A))
      (v : Holds path_of uncached sha256 max s)
      → Shows beq none 0 ents (touched beq h v.le)
      → Holds path_of uncached sha256 max (record s { ent_cache = ents })
  unfolding touched lookup_of
  touched_ents-Holds h s ents v se = record {
    le = touched beq h v.le;
    lb = v.lb;
    sizes = v.sizes;
    ents = se;
    blobs = v.blobs;
    balanced = touched_ents-Balanced h s.blob_count v.le v.lb v.balanced;
    right = λ k e f. v.right k e (sym (lookup_of-touched beq beq-IsEquality k h v.le) ∙ f);
    within = v.within;
    by_bytes = v.by_bytes;
    unused = λ e. rw (v.unused e) refl;
  }

  -- the blob comes to the front
  touched_blobs-Holds :
      (b : Bytes) (s : Files A) (blobs : Cache Bytes Bytes)
      (v : Holds path_of uncached sha256 max s)
      → Shows beq v.sizes 0 blobs (touched beq b v.lb)
      → Holds path_of uncached sha256 max (record s { blob_cache = blobs })
  touched_blobs-Holds b s blobs v sb = record {
    le = v.le;
    lb = touched beq b v.lb;
    sizes = v.sizes;
    ents = v.ents;
    blobs = sb;
    balanced = touched_blobs-Balanced b s.blob_count v.le v.lb v.balanced;
    right = v.right;
    within = omega (
      arith,
      v.within,
      size-Shows beq v.sizes 0 s.blob_cache v.lb v.blobs,
      size-Shows beq v.sizes 0 blobs (touched beq b v.lb) sb,
      total_of-touched beq beq-IsEquality v.sizes b v.lb,
    );
    by_bytes = v.by_bytes;
    unused = v.unused;
  }

  pub cached_file-Looked :
      ((a b : Bytes) → sha256 a ≡ sha256 b → a ≡ b)
      → (h : Bytes) (s : Files A) → Holds path_of uncached sha256 max s
      → Looked h s
  cached_file-Looked unique h s v =
      let (ents, run, se) = get_ok-Shows beq beq-IsEquality none 0 h s.ent_cache v.le v.ents in
      let v1 = touched_ents-Holds h s ents v se in
      elim (Option-cases (lookup_of beq h v.le)) [
        | inl n ↦ record {
          found = none;
          result = record s { ent_cache = ents };
          returns = cached-missing h s ents (rw n at run);
          holds = v1;
          is_file = λ file e. absurd (none-ne-some e);
        }
        | inr (ent, is) ↦
            let (blobs, run2, sb) =
              get_ok-Shows beq beq-IsEquality v1.sizes 0 ent.blob_hash s.blob_cache v1.lb
                v1.blobs in
            let v2 =
              touched_blobs-Holds ent.blob_hash (record s { ent_cache = ents }) blobs v1 sb in
            let (c, file, hash) = v.right h ent is in
            elim (Option-cases (lookup_of beq ent.blob_hash v1.lb)) [
              | inl n ↦ record {
                found = none;
                result = record s { ent_cache = ents; blob_cache = blobs };
                returns = cached-no_blob h ent s ents blobs (rw is at run) (rw n at run2);
                holds = v2;
                is_file = λ f e. absurd (none-ne-some e);
              }
              | inr (b, e) ↦
                  let same : c ≡ b =
                    unique c b (hash ∙ sym (v1.balanced.hashes ent.blob_hash b e)) in
                  record {
                    found = some (b, ent.attr);
                    result = record s { ent_cache = ents; blob_cache = blobs };
                    returns = cached-blob h b ent s ents blobs (rw is at run) (rw e at run2);
                    holds = v2;
                    is_file = λ f g.
                        let there : ◌≡◌ {A = Bytes × A} (b, ent.attr) f = cc in
                        rw (sym there, sym same) file;
                  }
            ]
      ]
