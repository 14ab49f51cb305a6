-- ===== src/Lru/Stores.antt =====
-- `Set` of internal/lru/lru.go before its loop: the value of a key is replaced, or a new entry is
-- made.
use gomodfs.Base.{
  ℕ, ◌+◌, ◌-◌, ◌≡◌, inl, inr, refl, arith, List, ◌∷◌, ◌++◌, Option, none, some, Bool, true, false,
  Option-cases, sym, ap, ◌∙◌,
}
use gomodfs.Lru.{Heap, Cache, update, find, move_to_front, store, size_with}
use gomodfs.Lru.Addresses.{mem}
use gomodfs.Lru.Lookup.{IsEquality}
use gomodfs.Lru.Represents.{Represents, total-frame}
use gomodfs.Lru.Moves.{with_front, move_to_front-Represents}
use gomodfs.Lru.Adds.{update_here, added, insert_new, insert_new-Represents}
use gomodfs.Lru.Spec.{drop_key}
use gomodfs.Lru.Shows.{entries, entries-frame, Shows, drop_key-NoKey, at_split, found, not_found}

module _ {K V : Type 0} (same : K → K → Bool) (eq : IsEquality same) where
  -- the value of the entry `e` is replaced
  abbrev replaced : ℕ → K → V → Cache K V → Cache K V
  replaced e k v c = record c {
    cur_size =
        c.cur_size - size_with c.size_of_entry k (c.heap.value e) + size_with c.size_of_entry k v;
    heap = record c.heap { value = update c.heap.value e v };
  }

  store_found :
      (k : K) (v : V) (c c' : Cache K V) (e : ℕ)
      → find same k c.lookup ≡ some e
      → move_to_front e c ≡ some c'
      → c'.size_of_entry ≡ c.size_of_entry
      → c'.cur_size ≡ c.cur_size
      → store same k v c ≡ some (replaced e k v c')
  unfolding store
  store_found k v c c' e h m sz cs = rw (store, h, m, sz, cs) refl

  store_new :
      (k : K) (v : V) (c : Cache K V)
      → find same k c.lookup ≡ none
      → store same k v c ≡ some (insert_new same eq k v c)
  unfolding store
  store_new k v c h = rw (store, h) refl

  replaced-Represents :
      (e : ℕ) (k : K) (v : V) (c : Cache K V) (ps : List ℕ)
      → Represents same c (e ∷ ps)
      → c.heap.key e ≡ k
      → Represents same (replaced e k v c) (e ∷ ps)
  unfolding mem update
  replaced-Represents e k v c ps r is = record {
    ring = r.ring;
    distinct = r.distinct;
    below = r.below;
    sound = r.sound;
    complete = r.complete;
    once = r.once;
    count = r.count;
    sizes =
        let rest =
          total-frame c.size_of_entry c.heap (replaced e k v c).heap ps
            (λ a i. (refl, ground (arith, r.distinct.0))) in
        let here : size_with c.size_of_entry (c.heap.key e) (update c.heap.value e v e)
            ≡ size_with c.size_of_entry k v =
          rw (update_here c.heap.value e v, is) refl in
        let was : size_with c.size_of_entry (c.heap.key e) (c.heap.value e)
            ≡ size_with c.size_of_entry k (c.heap.value e) =
          rw is refl in
        omega (arith, r.sizes, rest, here, was);
  }

  -- what `store` leaves
  pub record Stored (f : Option (K → V → ℕ)) (max : ℕ) (c : Cache K V) (k : K) (v : V)
      (l : List (K × V)) : Type 0 where
    pub result : Cache K V
    pub returns : store same k v c ≡ some result
    pub shows : Shows same f max result ((k, v) ∷ drop_key same k l)

  replaced-entries :
      (e : ℕ) (k : K) (v : V) (h : Heap K V) (ps : List ℕ)
      → mem e ps ≡ false
      → h.key e ≡ k
      → entries (record h { value = update h.value e v }) (e ∷ ps) ≡ (k, v) ∷ entries h ps
  unfolding update
  replaced-entries e k v h ps out is =
      let rest =
        entries-frame h (record h { value = update h.value e v }) ps
          (λ a i. (refl, ground (arith, out))) in
      rw (update_here h.value e v, is, rest) refl

  -- the key is there
  store-here :
      (f : Option (K → V → ℕ)) (max : ℕ) (k : K) (v : V) (c : Cache K V) (l : List (K × V)) (e : ℕ)
      → Shows same f max c l
      → find same k c.lookup ≡ some e
      → Stored f max c k v l
  store-here f max k v c l e s h =
      let at = found same eq c s.places k e s.represents h in
      let r = rw (at.split) at s.represents in
      let (n, p, runs, moved) = move_to_front-Represents same e c at.before at.after r in
      let is_same : same (c.heap.key e) k ≡ true = (eq (c.heap.key e) k).1 at.is_key in
      let dropped = (at_split same c.heap k e at.before at.after is_same at.no_other).1 in
      record {
        result = replaced e k v (with_front same e n p c);
        returns = store_found k v c (with_front same e n p c) e h runs refl refl;
        shows = record {
          places = e ∷ (at.before ++ at.after);
          represents =
              replaced-Represents e k v (with_front same e n p c) (at.before ++ at.after) moved
                at.is_key;
          shown =
              replaced-entries e k v (with_front same e n p c).heap (at.before ++ at.after)
                moved.distinct.0 at.is_key
              ∙ ap (◌∷◌ (k, v)) (
                  entries-frame c.heap (with_front same e n p c).heap (at.before ++ at.after)
                    (λ a i. (refl, refl))
                  ∙ sym dropped
                  ∙ ap (drop_key same k) (ap (entries c.heap) (sym at.split) ∙ s.shown));
          limit = s.limit;
          sizes = s.sizes;
        };
      }

  -- the key is not there
  store-absent :
      (f : Option (K → V → ℕ)) (max : ℕ) (k : K) (v : V) (c : Cache K V) (l : List (K × V))
      → Shows same f max c l
      → find same k c.lookup ≡ none
      → Stored f max c k v l
  unfolding update
  store-absent f max k v c l s h =
      let (n, p, runs, new) = insert_new-Represents same eq k v c s.places s.represents h in
      let out = new.distinct.0 in
      let c' = added same eq k v n p c in
      let rest =
        entries-frame c.heap c'.heap s.places (λ a i. (ground (arith, out), ground (arith, out))) in
      let none_dropped =
        drop_key-NoKey same c.heap k s.places (not_found same eq c s.places k s.represents h) in
      record {
        result = c';
        returns = store_new k v c h ∙ ap some runs;
        shows = record {
          places = c.heap.fresh ∷ s.places;
          represents = new;
          shown =
              rw
                (
                  update_here c.heap.key c.heap.fresh k,
                  update_here c.heap.value c.heap.fresh v,
                  rest,
                )
                (ap (◌∷◌ (k, v)) (sym none_dropped ∙ ap (drop_key same k) s.shown));
          limit = s.limit;
          sizes = s.sizes;
        };
      }

  pub store-Stored :
      (f : Option (K → V → ℕ)) (max : ℕ) (k : K) (v : V) (c : Cache K V) (l : List (K × V))
      → Shows same f max c l
      → Stored f max c k v l
  store-Stored f max k v c l s = elim (Option-cases (find same k c.lookup)) [
    | inl h ↦ store-absent f max k v c l s h
    | inr (e, h) ↦ store-here f max k v c l e s h
  ]
