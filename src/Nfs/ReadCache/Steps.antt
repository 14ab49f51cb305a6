-- ===== src/Nfs/ReadCache/Steps.antt =====
-- `setReadCache` of nfs.go on caches that stand for lists.
use gomodfs.Base.{
  ℕ, zero, suc, ltb, ◌≡◌, ◌⊎◌, ◌≤◌, ◌<◌, inl, inr, refl, arith, Bytes, List, [], ◌∷◌, Option, none,
  some, true, false, Bool-cases, none-ne-some, beq, beq_iff, length, ap, ◌∙◌,
}
use gomodfs.Lru.{Cache, set, pop_oldest, size}
use gomodfs.Lru.Spec.{lookup_of, drop_key, limited, last, init, total_of}
use gomodfs.Lru.Shows.{Shows, size-Shows}
use gomodfs.Lru.Reads.{pop_oldest-Shows}
use gomodfs.Lru.Refines.{set-Shows}
use gomodfs.Lru.Keys.{Once, Once-init, lookup_of-init}
use gomodfs.Nfs.ReadCache.{Entry, Files, with_count, decr_blob_count, put_entry, shrink, next_round}
use gomodfs.Nfs.ReadCache.Uses.{uses, uses-init, beq-IsEquality}
use gomodfs.Nfs.ReadCache.Valid.{Balanced, decr-Dropped, counted_up, Inserted}

-- without entries there are no blobs
pub no_blobs :
    {A : Type 0} (sha256 : Bytes → Bytes) (count : Bytes → ℕ) (lb : List (Bytes × Bytes))
    → Balanced {A = A} sha256 count [] lb
    → lb ≡ []
unfolding lookup_of uses
no_blobs sha256 count [] v = refl
no_blobs sha256 count ((b, c) ∷ lb) v = absurd (ground (arith, v.held b, beq_iff b b))

module _ {K V : Type 0} where
  last-cases : (l : List (K × V)) → (l ≡ []) ⊎ ((k : K) × (v : V) × (last l ≡ some (k, v)))
  unfolding last
  last-cases [] = inl refl
  last-cases ((k, v) ∷ []) = inr (k, v, refl)
  last-cases (e ∷ d ∷ l) = elim (last-cases (d ∷ l)) [
    | inl empty ↦ absurd (cc)
    | inr found ↦ inr found
  ]

  length-init : (l : List (K × V)) (e : K × V) → last l ≡ some e → length l ≡ suc (length (init l))
  unfolding last init
  length-init [] e h = absurd (none-ne-some h)
  length-init (d ∷ []) e h = refl
  length-init (d ∷ c ∷ l) e h = omega (arith, length-init (c ∷ l) e h)

module _ {A : Type 0} (sha256 : Bytes → Bytes) (f : Option (Bytes → Bytes → ℕ)) where
  put_entry-returns :
      (h : Bytes) (ent : Entry A) (c : Bytes) (s : Files A) (ents : Cache Bytes (Entry A))
      (blobs : Cache Bytes Bytes)
      → set beq h ent s.ent_cache ≡ some ents
      → set beq ent.blob_hash c s.blob_cache ≡ some blobs
      → put_entry h ent c s
        ≡ some (record s {
          ent_cache = ents;
          blob_count = with_count ent.blob_hash (suc (s.blob_count ent.blob_hash)) s.blob_count;
          blob_cache = blobs;
        })
  unfolding put_entry
  put_entry-returns h ent c s ents blobs e1 e2 = rw (put_entry, e1, e2) refl

  pub put_entry-Inserted :
      (h : Bytes) (ent : Entry A) (c : Bytes) (s : Files A) (le : List (Bytes × Entry A))
      (lb : List (Bytes × Bytes))
      → Shows beq none 0 s.ent_cache le
      → Shows beq f 0 s.blob_cache lb
      → Balanced sha256 s.blob_count (drop_key beq h le) lb
      → Once beq le
      → sha256 c ≡ ent.blob_hash
      → Inserted sha256 h ent c s le f
  unfolding limited
  put_entry-Inserted h ent c s le lb se sb v once hash =
      let (ents, run1, sh1) = set-Shows beq beq-IsEquality none 0 h ent s.ent_cache le se in
      let (blobs, run2, sh2) =
        set-Shows beq beq-IsEquality f 0 ent.blob_hash c s.blob_cache lb sb in
      record {
        result = record s {
          ent_cache = ents;
          blob_count = with_count ent.blob_hash (suc (s.blob_count ent.blob_hash)) s.blob_count;
          blob_cache = blobs;
        };
        blobs = (ent.blob_hash, c) ∷ drop_key beq ent.blob_hash lb;
        returns = put_entry-returns h ent c s ents blobs run1 run2;
        ents = sh1;
        shows = sh2;
        balanced = counted_up sha256 h ent.blob_hash ent s.blob_count le lb c v once refl hash;
        counted_kept = refl;
      }

  -- what the loop leaves
  pub record Shrunk (fuel max : ℕ) (s : Files A) (le : List (Bytes × Entry A)) : Type 0 where
    pub result : Files A
    pub entries : List (Bytes × Entry A)
    pub blobs : List (Bytes × Bytes)
    pub returns : shrink fuel max s ≡ some result
    pub ents : Shows beq none 0 result.ent_cache entries
    pub shows : Shows beq f 0 result.blob_cache blobs
    pub balanced : Balanced sha256 result.blob_count entries blobs
    pub kept :
        (h : Bytes) (e : Entry A) → lookup_of beq h entries ≡ some e → lookup_of beq h le ≡ some e
    pub within : size result.blob_cache ≤ max
    pub counted_kept : result.counted ≡ s.counted

  shrink-stop :
      (fuel max : ℕ) (s : Files A)
      → ltb max (size s.blob_cache) ≡ false
      → shrink (suc fuel) max s ≡ some s
  unfolding shrink
  shrink-stop fuel max s h = rw (shrink, h) refl

  shrink-more :
      (fuel max : ℕ) (s s2 : Files A) (h : Bytes) (e : Entry A) (ents : Cache Bytes (Entry A))
      → ltb max (size s.blob_cache) ≡ true
      → pop_oldest beq s.ent_cache ≡ (some (h, e), ents)
      → decr_blob_count e.blob_hash (record s { ent_cache = ents }) ≡ some s2
      → shrink (suc fuel) max s ≡ shrink fuel max s2
  unfolding shrink next_round
  shrink-more fuel max s s2 h e ents over pop run = rw (shrink, over, pop, next_round, run) refl

  -- the blobs fit when there are no entries
  over_empty :
      (max : ℕ) (s : Files A) (le : List (Bytes × Entry A)) (lb : List (Bytes × Bytes))
      → Shows beq f 0 s.blob_cache lb
      → Balanced sha256 s.blob_count le lb
      → ltb max (size s.blob_cache) ≡ true
      → le ≡ []
      → ⊥
  over_empty max s le lb sb v over empty =
      let none_left = no_blobs sha256 s.blob_count lb (rw empty at v) in
      let total : size s.blob_cache ≡ 0 =
        size-Shows beq f 0 s.blob_cache lb sb ∙ ap (total_of f) none_left in
      ground (arith, over, total)

  -- the loop ends, does not panic, and leaves at most `max` bytes
  pub shrink-Shrunk :
      (fuel max : ℕ) (s : Files A) (le : List (Bytes × Entry A)) (lb : List (Bytes × Bytes))
      → length le < fuel
      → Shows beq none 0 s.ent_cache le
      → Shows beq f 0 s.blob_cache lb
      → Balanced sha256 s.blob_count le lb
      → Shrunk fuel max s le
  shrink-Shrunk zero max s le lb short se sb v = absurd (omega (arith, short))
  shrink-Shrunk (suc fuel) max s le lb short se sb v =
      elim (Bool-cases (ltb max (size s.blob_cache))) [
        | inr fits ↦ record {
          result = s;
          entries = le;
          blobs = lb;
          returns = shrink-stop fuel max s fits;
          ents = se;
          shows = sb;
          balanced = v;
          kept = λ h e k. k;
          within = ground (arith, fits);
          counted_kept = refl;
        }
        | inl over ↦
            let (ents, pop, se') = pop_oldest-Shows beq beq-IsEquality none 0 s.ent_cache le se in
            elim (last-cases le) [
              | inl empty ↦ absurd (over_empty max s le lb sb v over empty)
              | inr (h, e, is_last) ↦
                  let s1 = record s { ent_cache = ents } in
                  let d =
                    decr-Dropped sha256 e s1 le (init le) lb f v sb
                      (λ b. uses-init b h e le is_last) (Once-init beq le v.keys) in
                  let shorter : length (init le) < fuel =
                    omega (arith, short, length-init le (h, e) is_last) in
                  let rest =
                    shrink-Shrunk fuel max d.result (init le) d.blobs shorter (rw (d.ents_kept) se')
                      d.shows d.balanced in
                  record {
                    result = rest.result;
                    entries = rest.entries;
                    blobs = rest.blobs;
                    returns =
                        shrink-more fuel max s d.result h e ents over (rw is_last at pop) d.returns
                        ∙ rest.returns;
                    ents = rest.ents;
                    shows = rest.shows;
                    balanced = rest.balanced;
                    kept = λ k u g. lookup_of-init beq k u le (rest.kept k u g);
                    within = rest.within;
                    counted_kept = rest.counted_kept ∙ d.counted_kept;
                  }
            ]
      ]
