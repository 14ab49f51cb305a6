-- ===== src/Lru/Adds.antt =====
-- A new entry in the ring of internal/lru/lru.go: `newAtFront` and the insertion into `lookup`.
use gomodfs.Base.{
  ℕ, ◌+◌, ◌≡◌, inl, inr, refl, arith, List, [], ◌∷◌, none, some, Bool, false, Bool-cases, ap,
}
use gomodfs.Lru.{Heap, Cache, update, find, size_with, link_in, alloc, new_at_front}
use gomodfs.Lru.Addresses.{mem, Distinct}
use gomodfs.Lru.Links.{Ptrs, Chain}
use gomodfs.Lru.Ring.{link_in-Chain, alloc-Chain}
use gomodfs.Lru.Lookup.{IsEquality, same_refl}
use gomodfs.Lru.Represents.{RingOf, Represents, total-frame}

pub update_here : {A : Type 0} (f : ℕ → A) (a : ℕ) (x : A) → update f a x a ≡ x
unfolding update
update_here f a x = ground arith

module _ {K V : Type 0} (same : K → K → Bool) (eq : IsEquality same) where
  -- the cache with the new entry, its pointers `n` and `p`
  abbrev pub added : K → V → Ptrs → Ptrs → Cache K V → Cache K V
  added k v n p c = record c {
    head = some c.heap.fresh;
    heap = record (alloc k v c.heap) { next = n; prev = p };
    lookup = (k, c.heap.fresh) ∷ c.lookup;
    cur_size = c.cur_size + size_with c.size_of_entry k v;
  }

  -- `newAtFront`, with what `Set` does for a key that is not there
  abbrev pub insert_new : K → V → Cache K V → Cache K V
  insert_new k v c = record (new_at_front k v c) {
    lookup = (k, c.heap.fresh) ∷ c.lookup;
    cur_size = c.cur_size + size_with c.size_of_entry k v;
  }

  fresh_out : (c : Cache K V) (ps : List ℕ) → Represents same c ps → mem c.heap.fresh ps ≡ false
  fresh_out c ps r = elim (Bool-cases (mem c.heap.fresh ps)) [
    | inl i ↦ absurd (omega (arith, r.below c.heap.fresh i))
    | inr o ↦ o
  ]

  record Added (k : K) (v : V) (c : Cache K V) (ps : List ℕ) : Type 0 where
    next' : Ptrs
    prev' : Ptrs
    runs : insert_new k v c ≡ added k v next' prev' c
    ring : Chain next' prev' c.heap.fresh ps c.heap.fresh

  link_in-alloc :
      (k : K) (v : V) (a : ℕ) (h : Heap K V)
      → link_in h.fresh a (alloc k v h) ≡ record (alloc k v h) {
        next = (link_in h.fresh a (alloc k v h)).next;
        prev = (link_in h.fresh a (alloc k v h)).prev;
      }
  unfolding link_in
  link_in-alloc k v a h = refl

  add-Chain :
      (k : K) (v : V) (c : Cache K V) (ps : List ℕ)
      → RingOf c.heap.next c.heap.prev c.head ps
      → Distinct ps
      → mem c.heap.fresh ps ≡ false
      → Added k v c ps
  unfolding new_at_front update
  add-Chain k v c [] hd d new = record {
    next' = (alloc k v c.heap).next;
    prev' = (alloc k v c.heap).prev;
    runs = rw (hd, new_at_front) refl;
    ring = (ground arith, ground arith);
  }
  add-Chain k v c (a ∷ xs) (hd, chain) d new = record {
    next' = (link_in c.heap.fresh a (alloc k v c.heap)).next;
    prev' = (link_in c.heap.fresh a (alloc k v c.heap)).prev;
    runs =
        rw (hd, new_at_front)
          (ap
            (λ (g : Heap K V). record c {
              head = some c.heap.fresh;
              heap = g;
              lookup = (k, c.heap.fresh) ∷ c.lookup;
              cur_size = c.cur_size + size_with c.size_of_entry k v;
            })
            (link_in-alloc k v a c.heap));
    ring =
        link_in-Chain c.heap.fresh a xs (alloc k v c.heap) (alloc-Chain k v a xs c.heap chain new) d
          new;
  }

  added-Represents :
      (k : K) (v : V) (c : Cache K V) (ps : List ℕ) (n p : Ptrs)
      → Represents same c ps
      → find same k c.lookup ≡ none
      → Chain n p c.heap.fresh ps c.heap.fresh
      → Represents same (added k v n p c) (c.heap.fresh ∷ ps)
  unfolding mem find update
  added-Represents k v c ps n p r absent chain =
      let out = fresh_out c ps r in
      record {
        ring = (refl, chain);
        distinct = (out, r.distinct);
        below = λ a i. ground (arith, r.below a);
        sound = λ j a h. ground (arith, r.sound j a, eq k j);
        complete =
            λ a i. ground (arith, r.complete a, same_refl same eq k, eq k (c.heap.key a), absent);
        once = (absent, r.once);
        count = omega (arith, r.count);
        sizes =
            let rest =
              total-frame c.size_of_entry c.heap (added k v n p c).heap ps
                (λ a i. (ground (arith, out), ground (arith, out))) in
            let here : size_with c.size_of_entry (update c.heap.key c.heap.fresh k c.heap.fresh)
                  (update c.heap.value c.heap.fresh v c.heap.fresh)
                ≡ size_with c.size_of_entry k v =
              rw (update_here c.heap.key c.heap.fresh k, update_here c.heap.value c.heap.fresh v)
                refl in
            omega (arith, r.sizes, rest, here);
      }

  -- `Set` on a key that is not there
  pub insert_new-Represents :
      (k : K) (v : V) (c : Cache K V) (ps : List ℕ)
      → Represents same c ps
      → find same k c.lookup ≡ none
      → (n p : Ptrs) × (insert_new k v c ≡ added k v n p c)
        × Represents same (added k v n p c) (c.heap.fresh ∷ ps)
  insert_new-Represents k v c ps r absent =
      let a = add-Chain k v c ps r.ring r.distinct (fresh_out c ps r) in
      (a.next', a.prev', a.runs, added-Represents k v c ps a.next' a.prev' r absent a.ring)
