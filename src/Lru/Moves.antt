-- ===== src/Lru/Moves.antt =====
-- The operations of internal/lru/lru.go on the ring: moving an entry to the front, making one, and
-- deleting one.
use gomodfs.Base.{ℕ, ◌≡◌, ◌≢◌, refl, arith, List, [], ◌∷◌, ◌++◌, some, Bool, false, ◌==◌, sym, ap}
use gomodfs.Lru.{Heap, Cache, link_in, unlink, move_to_front}
use gomodfs.Lru.Addresses.{mem, Distinct, Apart, Apart-append}
use gomodfs.Lru.Links.{Ptrs, Chain, last_mem, part}
use gomodfs.Lru.Ring.{link_in-Chain, unlink-Without, Without-inner}
use gomodfs.Lru.Represents.{
  RingOf, Represents, mem-moved, Distinct-moved, length-moved, total-moved,
}

ne_of_Apart :
    (b : ℕ) (before : List ℕ) (e : ℕ) (after : List ℕ)
    → Apart (b ∷ before) (e ∷ after)
    → (b == e) ≡ false
unfolding mem
ne_of_Apart b before e after both = ground (arith, both.apart b)

prev_ne : (e : ℕ) (after : List ℕ) (q : ℕ) → mem q (e ∷ after) ≡ false → q ≢ e
unfolding mem
prev_ne e after q h = ground arith

link_in-eta :
    {K V : Type 0} (e b : ℕ) (h : Heap K V)
    → link_in e b (unlink e h)
      ≡ record h { next = (link_in e b (unlink e h)).next; prev = (link_in e b (unlink e h)).prev }
unfolding link_in unlink
link_in-eta e b h = refl

module _ {K V : Type 0} (same : K → K → Bool) where
  -- the cache with other pointers and the head `e`
  abbrev pub with_front : ℕ → Ptrs → Ptrs → Cache K V → Cache K V
  with_front e n p c = record c { head = some e; heap = record c.heap { next = n; prev = p } }

  -- what `move_to_front` gives
  pub record Moved (e : ℕ) (c : Cache K V) (ps : List ℕ) : Type 0 where
    pub next' : Ptrs
    pub prev' : Ptrs
    pub runs : move_to_front e c ≡ some (with_front e next' prev' c)
    pub ring : Chain next' prev' e ps e

  move-Chain :
      (e : ℕ) (c : Cache K V) (before after : List ℕ)
      → RingOf c.heap.next c.heap.prev c.head (before ++ (e ∷ after))
      → Distinct (before ++ (e ∷ after))
      → Moved e c (before ++ after)
  unfolding move_to_front
  move-Chain e c [] after (hd, chain) d = record {
    next' = c.heap.next;
    prev' = c.heap.prev;
    runs = rw (hd, move_to_front) (ground arith);
    ring = chain;
  }
  move-Chain e c (b ∷ before) after (hd, chain) d =
      let (c1, c2) = part c.heap.next c.heap.prev b before e after b chain in
      let both = Apart-append (b ∷ before) (e ∷ after) d in
      let last = both.apart (c.heap.prev e) (last_mem c.heap.next c.heap.prev b before e c1) in
      let other : (b == e) ≡ false = ne_of_Apart b before e after both in
      let h = unlink e c.heap in
      let out = Distinct-moved e (b ∷ before) after d in
      let ring =
        Without-inner c.heap.next c.heap.prev h.next h.prev e b before after
          (unlink-Without e c.heap (prev_ne e after (c.heap.prev e) last)) chain d in
      record {
        next' = (link_in e b h).next;
        prev' = (link_in e b h).prev;
        runs =
            rw (hd, move_to_front, other)
              (ap (λ (g : Heap K V). some (record c { head = some e; heap = g }))
                (link_in-eta e b c.heap));
        ring = link_in-Chain e b (before ++ after) h ring out.1 out.0;
      }

  -- a cache whose entries stand in another order, with other pointers
  front-Represents :
      (e : ℕ) (c : Cache K V) (before after : List ℕ) (n p : Ptrs)
      → Represents same c (before ++ (e ∷ after))
      → Chain n p e (before ++ after) e
      → Represents same (with_front e n p c) (e ∷ (before ++ after))
  front-Represents e c before after n p r chain = record {
    ring = (refl, chain);
    distinct = Distinct-moved e before after r.distinct;
    below = λ a i. r.below a (rw (mem-moved a e before after) i);
    sound = λ k a h. (rw (sym (mem-moved a e before after)) (r.sound k a h).0, (r.sound k a h).1);
    complete = λ a i. r.complete a (rw (mem-moved a e before after) i);
    once = r.once;
    count = omega (arith, r.count, length-moved e before after);
    sizes = omega (arith, r.sizes, total-moved c.size_of_entry c.heap e before after);
  }

  -- `move_to_front` does not fail on an entry of the cache, and puts it first
  pub move_to_front-Represents :
      (e : ℕ) (c : Cache K V) (before after : List ℕ)
      → Represents same c (before ++ (e ∷ after))
      → (n p : Ptrs) × (move_to_front e c ≡ some (with_front e n p c))
        × Represents same (with_front e n p c) (e ∷ (before ++ after))
  move_to_front-Represents e c before after r =
      let m = move-Chain e c before after r.ring r.distinct in
      (m.next', m.prev', m.runs, front-Represents e c before after m.next' m.prev' r m.ring)
