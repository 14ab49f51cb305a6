-- ===== src/Nfs/ReadCache/Valid.antt =====
-- The counts of the read cache of nfs.go agree with its entries and its blobs.
use gomodfs.Base.{
  ℕ, zero, suc, ◌+◌, ◌-◌, ◌==◌, ◌≡◌, inl, inr, refl, arith, Bytes, List, ◌∷◌, Option, none, some,
  false, not, Bool-cases, is_some, beq, beq_iff, sym, ◌∙◌,
}
use gomodfs.Lru.{delete}
use gomodfs.Lru.Spec.{lookup_of, drop_key}
use gomodfs.Lru.Shows.{Shows}
use gomodfs.Lru.Reads.{delete-Shows}
use gomodfs.Lru.Keys.{
  Once, Once-front, lookup_of-drop_key, lookup_of-drop_key_same, lookup_of-dropped,
}
use gomodfs.Nfs.ReadCache.{Entry, Files, with_count, decr_blob_count, put_entry}
use gomodfs.Nfs.ReadCache.Uses.{one_use, uses, beq-IsEquality}

module _ {A : Type 0} (sha256 : Bytes → Bytes) where
  -- A count is the number of the entries with the blob, a blob is there when an entry has it, and
  -- it is stored under its hash.
  pub record Balanced (count : Bytes → ℕ) (le : List (Bytes × Entry A)) (lb : List (Bytes × Bytes))
      : Type 0 where
    pub keys : Once beq le
    pub counts : (b : Bytes) → count b ≡ uses b le
    pub held : (b : Bytes) → is_some (lookup_of beq b lb) ≡ not (uses b le == 0)
    pub hashes : (b c : Bytes) → lookup_of beq b lb ≡ some c → sha256 c ≡ b

  with_count-drop :
      (e : Entry A) (n : ℕ) (count : Bytes → ℕ) (le le' : List (Bytes × Entry A))
      (lb : List (Bytes × Bytes))
      → Balanced count le lb
      → ((b : Bytes) → uses b le ≡ one_use b e + uses b le')
      → Once beq le'
      → count e.blob_hash ≡ suc (suc n)
      → Balanced (with_count e.blob_hash (suc n) count) le' lb
  unfolding with_count one_use
  with_count-drop e n count le le' lb v less once is = record {
    keys = once;
    counts = λ b. ground (arith, v.counts b, less b, beq_iff e.blob_hash b, is);
    held = λ b. ground (arith, v.held b, v.counts b, less b, beq_iff e.blob_hash b, is);
    hashes = v.hashes;
  }

  with_count-last :
      (e : Entry A) (count : Bytes → ℕ) (le le' : List (Bytes × Entry A))
      (lb : List (Bytes × Bytes))
      → Balanced count le lb
      → ((b : Bytes) → uses b le ≡ one_use b e + uses b le')
      → Once beq le'
      → count e.blob_hash ≡ 1
      → Balanced (with_count e.blob_hash 0 count) le' (drop_key beq e.blob_hash lb)
  unfolding with_count one_use
  with_count-last e count le le' lb v less once is = record {
    keys = once;
    counts = λ b. ground (arith, v.counts b, less b, beq_iff e.blob_hash b, is);
    held = λ b. elim (Bool-cases (beq e.blob_hash b)) [
      | inl hit ↦ ground (
        arith,
        v.counts b,
        less b,
        beq_iff e.blob_hash b,
        is,
        hit,
        lookup_of-drop_key_same beq beq-IsEquality b lb,
      )
      | inr differs ↦ ground (
        arith,
        v.held b,
        less b,
        differs,
        lookup_of-drop_key beq beq-IsEquality b e.blob_hash lb differs,
      )
    ];
    hashes = λ b c f. v.hashes b c (lookup_of-dropped beq beq-IsEquality e.blob_hash b c lb f);
  }

  -- what an entry that goes leaves
  pub record Dropped (e : Entry A) (s : Files A) (le' : List (Bytes × Entry A))
      (f : Option (Bytes → Bytes → ℕ)) : Type 0 where
    pub result : Files A
    pub blobs : List (Bytes × Bytes)
    pub returns : decr_blob_count e.blob_hash s ≡ some result
    pub balanced : Balanced result.blob_count le' blobs
    pub shows : Shows beq f 0 result.blob_cache blobs
    pub ents_kept : result.ent_cache ≡ s.ent_cache
    pub counted_kept : result.counted ≡ s.counted

  decr-last :
      (b : Bytes) (s : Files A)
      → s.blob_count b ≡ 1
      → decr_blob_count b s
        ≡ some (record s {
          blob_count = with_count b 0 s.blob_count;
          blob_cache = delete beq b s.blob_cache;
        })
  unfolding decr_blob_count
  decr-last b s h = rw (decr_blob_count, h) refl

  decr-more :
      (b : Bytes) (n : ℕ) (s : Files A)
      → s.blob_count b ≡ suc (suc n)
      → decr_blob_count b s ≡ some (record s { blob_count = with_count b (suc n) s.blob_count })
  unfolding decr_blob_count
  decr-more b n s h =
      let some_left : (suc (suc n) == 0) ≡ false = ground arith in
      let more : (suc (suc n) == 1) ≡ false = ground arith in
      let less : suc (suc n) - 1 ≡ suc n = omega arith in
      rw (decr_blob_count, h, some_left, more, less) refl

  -- `decrBlobCountLocked` does not panic for an entry that goes
  pub decr-Dropped :
      (e : Entry A) (s : Files A) (le le' : List (Bytes × Entry A)) (lb : List (Bytes × Bytes))
      (f : Option (Bytes → Bytes → ℕ))
      → Balanced s.blob_count le lb
      → Shows beq f 0 s.blob_cache lb
      → ((b : Bytes) → uses b le ≡ one_use b e + uses b le')
      → Once beq le'
      → Dropped e s le' f
  unfolding one_use
  decr-Dropped e s le le' lb f v sh less once = by_count (s.blob_count e.blob_hash) refl
    where
      by_count : (n : ℕ) → s.blob_count e.blob_hash ≡ n → Dropped e s le' f
      by_count zero is =
          absurd (
            ground (arith, v.counts e.blob_hash, less e.blob_hash, beq_iff e.blob_hash e.blob_hash))
      by_count (suc zero) is = record {
        result = record s {
          blob_count = with_count e.blob_hash 0 s.blob_count;
          blob_cache = delete beq e.blob_hash s.blob_cache;
        };
        blobs = drop_key beq e.blob_hash lb;
        returns = decr-last e.blob_hash s is;
        balanced = with_count-last e s.blob_count le le' lb v less once is;
        shows = delete-Shows beq beq-IsEquality f 0 e.blob_hash s.blob_cache lb sh;
        ents_kept = refl;
        counted_kept = refl;
      }
      by_count (suc (suc n)) is = record {
        result = record s { blob_count = with_count e.blob_hash (suc n) s.blob_count };
        blobs = lb;
        returns = decr-more e.blob_hash n s is;
        balanced = with_count-drop e n s.blob_count le le' lb v less once is;
        shows = sh;
        ents_kept = refl;
        counted_kept = refl;
      }

  pub counted_up :
      (h b : Bytes) (ent : Entry A) (count : Bytes → ℕ) (le : List (Bytes × Entry A))
      (lb : List (Bytes × Bytes)) (c : Bytes)
      → Balanced count (drop_key beq h le) lb
      → Once beq le
      → ent.blob_hash ≡ b
      → sha256 c ≡ b
      → Balanced
          (with_count b (suc (count b)) count)
          ((h, ent) ∷ drop_key beq h le)
          ((b, c) ∷ drop_key beq b lb)
  unfolding with_count one_use uses lookup_of
  counted_up h b ent count le lb c v once is hash = record {
    keys = Once-front beq beq-IsEquality h ent le once;
    counts = λ x. ground (arith, v.counts x, v.counts b, beq_iff b x, is);
    held = λ x. elim (Bool-cases (beq b x)) [
      | inl hit ↦ ground (arith, hit, is)
      | inr differs ↦
          ground
            (arith, v.held x, differs, is, lookup_of-drop_key beq beq-IsEquality x b lb differs)
    ];
    hashes = λ x d f. elim (Bool-cases (beq b x)) [
      | inl hit ↦
          (let same : c ≡ d = (let g = rw hit at f in cc) in
            rw (sym same) (hash ∙ (beq_iff b x).0 hit))
      | inr differs ↦ v.hashes x d (lookup_of-dropped beq beq-IsEquality b x d lb (rw differs at f))
    ];
  }

  -- what a new entry leaves
  pub record Inserted (h : Bytes) (ent : Entry A) (contents : Bytes) (s : Files A)
      (le : List (Bytes × Entry A)) (f : Option (Bytes → Bytes → ℕ)) : Type 0 where
    pub result : Files A
    pub blobs : List (Bytes × Bytes)
    pub returns : put_entry h ent contents s ≡ some result
    pub ents : Shows beq none 0 result.ent_cache ((h, ent) ∷ drop_key beq h le)
    pub shows : Shows beq f 0 result.blob_cache blobs
    pub balanced : Balanced result.blob_count ((h, ent) ∷ drop_key beq h le) blobs
    pub counted_kept : result.counted ≡ s.counted
