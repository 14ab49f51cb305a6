-- ===== src/Lru/Deletes.antt =====
-- Taking an entry out of the ring of internal/lru/lru.go: `deleteElement`.
use gomodfs.Base.{
  ℕ, ◌-◌, ◌≡◌, ◌≢◌, refl, arith, List, [], ◌∷◌, ◌++◌, Option, none, some, Bool, true, false, ◌==◌,
  if◌then◌else◌, sym,
}
use gomodfs.Lru.{Heap, Cache, erase, size_with, cut_out, delete_element}
use gomodfs.Lru.Addresses.{mem, Distinct, Apart-append}
use gomodfs.Lru.Links.{Ptrs, Chain, part}
use gomodfs.Lru.Ring.{cut_out-Without, Without-head, Without-inner}
use gomodfs.Lru.Lookup.{IsEquality, find-erase_same, find-erase_other, length-erase, OneEach-erase}
use gomodfs.Lru.Represents.{
  RingOf, Represents, mem-moved, Distinct-moved, length-moved, total-moved,
}

next_ne :
    (n p : Ptrs) (e : ℕ) (xs : List ℕ) (b : ℕ)
    → Chain n p e xs b
    → mem e xs ≡ false
    → e ≢ b
    → (n e == e) ≡ false
unfolding mem
next_ne n p e [] b (to, back) out ne = ground arith
next_ne n p e (x ∷ xs) b ((to, back), chain) out ne = ground arith

module _ {K V : Type 0} (same : K → K → Bool) (eq : IsEquality same) where
  -- the cache without the entry `e`, with other pointers
  abbrev pub without : ℕ → Option ℕ → Ptrs → Ptrs → Cache K V → Cache K V
  without e hd n p c = record c {
    head = hd;
    heap = record c.heap { next = n; prev = p };
    lookup = erase same (c.heap.key e) c.lookup;
    cur_size = c.cur_size - size_with c.size_of_entry (c.heap.key e) (c.heap.value e);
  }

  record Deleted (e : ℕ) (c : Cache K V) (ps : List ℕ) : Type 0 where
    head' : Option ℕ
    next' : Ptrs
    prev' : Ptrs
    runs : delete_element same e c ≡ without e head' next' prev' c
    ring : RingOf next' prev' head' ps

  cut_out-eta :
      (e : ℕ) (h : Heap K V)
      → cut_out e h ≡ record h { next = (cut_out e h).next; prev = (cut_out e h).prev }
  unfolding cut_out
  cut_out-eta e h = refl

  -- the entry is alone
  delete_alone :
      (e : ℕ) (c : Cache K V)
      → c.head ≡ some e
      → (c.heap.next e == e) ≡ true
      → delete_element same e c ≡ without e none c.heap.next c.heap.prev c
  unfolding delete_element
  delete_alone e c hd h = rw (delete_element, h) refl

  -- the entry is not alone
  delete-runs :
      (e b : ℕ) (hd : Option ℕ) (c : Cache K V)
      → c.head ≡ some b
      → (c.heap.next e == e) ≡ false
      → (if b == e then some (c.heap.next e) else some b) ≡ hd
      → delete_element same e c ≡ without e hd (cut_out e c.heap).next (cut_out e c.heap).prev c
  unfolding delete_element
  delete-runs e b hd c h1 h2 h3 = rw (delete_element, h2, h1, h3, cut_out-eta e c.heap) refl

  delete-Chain :
      (e : ℕ) (c : Cache K V) (before after : List ℕ)
      → RingOf c.heap.next c.heap.prev c.head (before ++ (e ∷ after))
      → Distinct (before ++ (e ∷ after))
      → Deleted e c (before ++ after)
  unfolding mem
  delete-Chain e c [] [] (hd, (to, back)) d = record {
    head' = none;
    next' = c.heap.next;
    prev' = c.heap.prev;
    runs = delete_alone e c hd (ground arith);
    ring = refl;
  }
  delete-Chain e c [] (b ∷ after) (hd, ((to, back), chain)) (out, d) =
      let ne : (c.heap.next e == e) ≡ false = ground arith in
      record {
        head' = some b;
        next' = (cut_out e c.heap).next;
        prev' = (cut_out e c.heap).prev;
        runs = delete-runs e e (some b) c hd ne (ground arith);
        ring = (
          refl,
          Without-head c.heap.next c.heap.prev (cut_out e c.heap).next (cut_out e c.heap).prev e b
              after (cut_out-Without e c.heap (ground arith)) ((to, back), chain) (out, d),
        );
      }
  delete-Chain e c (b ∷ before) after (hd, chain) d =
      let (c1, c2) = part c.heap.next c.heap.prev b before e after b chain in
      let both = Apart-append (b ∷ before) (e ∷ after) d in
      let other : b ≢ e = ground (arith, both.apart b) in
      let ne = next_ne c.heap.next c.heap.prev e after b c2 both.right.0 (λ q. other (sym q)) in
      record {
        head' = some b;
        next' = (cut_out e c.heap).next;
        prev' = (cut_out e c.heap).prev;
        runs = delete-runs e b (some b) c hd ne (ground arith);
        ring = (
          refl,
          Without-inner c.heap.next c.heap.prev (cut_out e c.heap).next (cut_out e c.heap).prev e b
              before after (cut_out-Without e c.heap (ground arith)) chain d,
        );
      }

  without-Represents :
      (e : ℕ) (c : Cache K V) (before after : List ℕ) (hd : Option ℕ) (n p : Ptrs)
      → Represents same c (before ++ (e ∷ after))
      → RingOf n p hd (before ++ after)
      → Represents same (without e hd n p c) (before ++ after)
  unfolding mem
  without-Represents e c before after hd n p r ring =
      let (out, d) = Distinct-moved e before after r.distinct in
      let known = r.complete e (rw (mem-moved e e before after) (ground arith)) in
      record {
        ring = ring;
        distinct = d;
        below = λ a i. r.below a (ground (arith, mem-moved a e before after));
        sound = λ k a h. ground (
          arith,
          r.sound k a,
          known,
          mem-moved a e before after,
          eq (c.heap.key e) k,
          find-erase_same same eq k c.lookup,
          find-erase_other same eq k (c.heap.key e) c.lookup,
        );
        complete = λ a i. ground (
          arith,
          r.complete a,
          known,
          mem-moved a e before after,
          eq (c.heap.key e) (c.heap.key a),
          find-erase_other same eq (c.heap.key a) (c.heap.key e) c.lookup,
        );
        once = OneEach-erase same eq (c.heap.key e) c.lookup r.once;
        count = omega (
          arith,
          r.count,
          length-erase same eq (c.heap.key e) c.lookup e r.once known,
          length-moved e before after,
        );
        sizes = omega (arith, r.sizes, total-moved c.size_of_entry c.heap e before after);
      }

  -- `deleteElement` on an entry of the cache takes it out, and leaves the others in their order
  pub delete_element-Represents :
      (e : ℕ) (c : Cache K V) (before after : List ℕ)
      → Represents same c (before ++ (e ∷ after))
      → (hd : Option ℕ) × (n p : Ptrs) × (delete_element same e c ≡ without e hd n p c)
        × Represents same (without e hd n p c) (before ++ after)
  delete_element-Represents e c before after r =
      let m = delete-Chain e c before after r.ring r.distinct in
      (
        m.head',
        m.next',
        m.prev',
        m.runs,
        without-Represents e c before after m.head' m.next' m.prev' r m.ring,
      )
