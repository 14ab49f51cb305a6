-- ===== src/Nfs/ReadCache/Fills.antt =====
-- A file that was read is put into the read cache of nfs.go.
use gomodfs.Base.{
  ℕ, suc, ◌≡◌, inl, inr, refl, arith, Bytes, List, ◌∷◌, Option, none, some, Bool-cases,
  Option-cases, beq, beq_iff, length, sym, ◌∙◌, Result, ok,
}
use gomodfs.Lru.{peek_ok, len}
use gomodfs.Lru.Spec.{lookup_of, drop_key}
use gomodfs.Lru.Shows.{Shows, len-Shows}
use gomodfs.Lru.Reads.{peek_ok-Shows}
use gomodfs.Lru.Keys.{Once-front, drop_key_absent, lookup_of-front, lookup_of-here}
use gomodfs.Nfs.ReadCache.{
  Entry, Files, init_counts, give_back, put_entry, shrink, shrunk, set_read_cache,
}
use gomodfs.Nfs.ReadCache.Uses.{uses-drop_key, beq-IsEquality}
use gomodfs.Nfs.ReadCache.Valid.{Balanced, decr-Dropped}
use gomodfs.Nfs.ReadCache.Steps.{put_entry-Inserted, shrink-Shrunk}
use gomodfs.Nfs.ReadCache.Holds.{file_of, IsOf, Holds, init_counts-Holds}

module _ {A : Type 0} (path_of : Bytes → Result Bytes) (uncached : Bytes → Result (Bytes × A))
    (sha256 : Bytes → Bytes) (max : ℕ) where
  -- a state between giving the old entry's blob back and putting the new one
  record Given (h : Bytes) (s : Files A) (le : List (Bytes × Entry A))
      (f : Option (Bytes → Bytes → ℕ)) : Type 0 where
    result : Files A
    blobs : List (Bytes × Bytes)
    returns : give_back (peek_ok beq h s.ent_cache) s ≡ some result
    ents : Shows beq none 0 result.ent_cache le
    shows : Shows beq f 0 result.blob_cache blobs
    balanced : Balanced sha256 result.blob_count (drop_key beq h le) blobs
    counted_kept : result.counted ≡ s.counted

  give_back-Given :
      (h : Bytes) (s : Files A) (le : List (Bytes × Entry A)) (lb : List (Bytes × Bytes))
      (f : Option (Bytes → Bytes → ℕ))
      → Shows beq none 0 s.ent_cache le
      → Shows beq f 0 s.blob_cache lb
      → Balanced sha256 s.blob_count le lb
      → Given h s le f
  unfolding give_back
  give_back-Given h s le lb f se sb v =
      let peek = peek_ok-Shows beq beq-IsEquality none 0 h s.ent_cache le se in
      elim (Option-cases (lookup_of beq h le)) [
        | inl n ↦ record {
          result = s;
          blobs = lb;
          returns = rw (peek, n) refl;
          ents = se;
          shows = sb;
          balanced = rw (drop_key_absent beq h le n) v;
          counted_kept = refl;
        }
        | inr (was, e) ↦
            let once = (Once-front beq beq-IsEquality h was le v.keys).1 in
            let d =
              decr-Dropped sha256 was s le (drop_key beq h le) lb f v sb
                (λ b. uses-drop_key b h was le v.keys e) once in
            record {
              result = d.result;
              blobs = d.blobs;
              returns = rw (peek, e) d.returns;
              ents = rw (d.ents_kept) se;
              shows = d.shows;
              balanced = d.balanced;
              counted_kept = d.counted_kept;
            }
      ]

  set-returns :
      (h : Bytes) (attr : A) (c : Bytes) (s s1 s2 s3 s4 : Files A) (n : ℕ)
      → init_counts s ≡ s1
      → give_back (peek_ok beq h s1.ent_cache) s1 ≡ some s2
      → put_entry h (record { attr = attr; blob_hash = sha256 c }) c s2 ≡ some s3
      → len s3.ent_cache ≡ n
      → shrink (suc n) max s3 ≡ some s4
      → set_read_cache sha256 max h attr c s ≡ some s4
  unfolding set_read_cache shrunk
  set-returns h attr c s s1 s2 s3 s4 n e1 e2 e3 e4 e5 = rw (set_read_cache, e1, e2, e3, e4, e5) refl

  right_front :
      (h : Bytes) (ent : Entry A) (le : List (Bytes × Entry A))
      → IsOf path_of uncached sha256 max h ent
      → ((k : Bytes) (e : Entry A)
          → lookup_of beq k le ≡ some e
          → IsOf path_of uncached sha256 max k e)
      → (k : Bytes) (e : Entry A) → lookup_of beq k ((h, ent) ∷ drop_key beq h le) ≡ some e
      → IsOf path_of uncached sha256 max k e
  right_front h ent le here rest k e f = elim (Bool-cases (beq h k)) [
    | inl is ↦
        let at_front = lookup_of-here beq beq-IsEquality h k ent le is in
        let same : ent ≡ e = (let g = sym at_front ∙ f in cc) in
        rw (sym same, sym ((beq_iff h k).0 is)) here
    | inr differs ↦ rest k e (sym (lookup_of-front beq beq-IsEquality h k ent le differs) ∙ f)
  ]

  -- the file of the handle is put into the cache
  pub set_read_cache-Holds :
      (h : Bytes) (attr : A) (c : Bytes) (s : Files A)
      → Holds path_of uncached sha256 max s
      → file_of path_of uncached (path_of h) ≡ ok (c, attr)
      → (s' : Files A) × (set_read_cache sha256 max h attr c s ≡ some s')
        × Holds path_of uncached sha256 max s'
  set_read_cache-Holds h attr c s holds file =
      let (s1, e1, v1, is) = init_counts-Holds path_of uncached sha256 max s holds in
      let ent : Entry A = record { attr = attr; blob_hash = sha256 c } in
      let g = give_back-Given h s1 v1.le v1.lb v1.sizes v1.ents v1.blobs v1.balanced in
      let p =
        put_entry-Inserted sha256 v1.sizes h ent c g.result v1.le g.blobs g.ents g.shows g.balanced
          v1.balanced.keys refl in
      let le' = (h, ent) ∷ drop_key beq h v1.le in
      let z =
        shrink-Shrunk sha256 v1.sizes (suc (length le')) max p.result le' p.blobs (omega arith)
          p.ents p.shows p.balanced in
      let counted = z.counted_kept ∙ p.counted_kept ∙ g.counted_kept ∙ is in
      (
        z.result,
        set-returns h attr c s s1 g.result p.result z.result (length le') e1 g.returns p.returns
            (len-Shows beq none 0 p.result.ent_cache le' p.ents) z.returns,
        record {
          le = z.entries;
          lb = z.blobs;
          sizes = v1.sizes;
          ents = z.ents;
          blobs = z.shows;
          balanced = z.balanced;
          right = λ k e f. right_front h ent v1.le (c, file, refl) v1.right k e (z.kept k e f);
          within = z.within;
          by_bytes = λ e. v1.by_bytes is;
          unused = λ e. absurd (ground (arith, e, counted));
        },
      )
