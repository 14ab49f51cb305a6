-- ===== src/Lru/Refines.antt =====
-- The methods of internal/lru/lru.go one after another, against the list of the entries.
use gomodfs.Base.{
  ℕ, suc, ◌≡◌, refl, arith, List, [], ◌∷◌, Option, none, some, Bool, false, ◌==◌, length, ap, ◌∙◌,
}
use gomodfs.Lru.{
  Heap, Cache, find, set, get_ok, peek_ok, delete, pop_oldest, clear, store, evict, walk, for_each,
  len, size,
}
use gomodfs.Lru.Addresses.{mem}
use gomodfs.Lru.Links.{Chain}
use gomodfs.Lru.Lookup.{IsEquality}
use gomodfs.Lru.Represents.{Represents}
use gomodfs.Lru.Evicts.{evict-Evicted}
use gomodfs.Lru.Stores.{store-Stored}
use gomodfs.Lru.Spec.{total_of, lookup_of, drop_key, limited, last}
use gomodfs.Lru.Shows.{entries, len-Shows, size-Shows, Shows}
use gomodfs.Lru.Reads.{get_ok-Shows, peek_ok-Shows, delete-Shows, pop_oldest-Shows}
use gomodfs.Lru.Runs.{
  Op, put, get, peek, remove, remove_oldest, remove_all, Out, done, value_of, oldest_of,
  empty_cache, call, calls, answer, after, after_all, outs,
}

walk-Chain :
    {K V : Type 0} (h : Heap K V) (head cur : ℕ) (xs : List ℕ)
    → Chain h.next h.prev cur xs head
    → mem head xs ≡ false
    → walk h head (suc (length xs)) cur ≡ entries h (cur ∷ xs)
unfolding walk mem
walk-Chain h head cur [] (to, back) out = ground arith
walk-Chain h head cur (x ∷ xs) ((to, back), c) out =
    let rest = walk-Chain h head x xs c (ground arith) in
    let ne : (h.next cur == head) ≡ false = ground arith in
    rw (ne, to) (ap (◌∷◌ (h.key cur, h.value cur)) rest)

module _ {K V : Type 0} (same : K → K → Bool) where
  for_each-at :
      (c : Cache K V) (b m : ℕ)
      → c.head ≡ some b
      → length c.lookup ≡ m
      → for_each c ≡ walk c.heap b m b
  unfolding for_each
  for_each-at c b m h e = rw (for_each, h, e) refl

  for_each-none : (c : Cache K V) → c.head ≡ none → for_each c ≡ []
  unfolding for_each
  for_each-none c h = rw (for_each, h) refl

  pub for_each-entries :
      (c : Cache K V) (ps : List ℕ) → Represents same c ps → for_each c ≡ entries c.heap ps
  for_each-entries c [] r = for_each-none c r.ring
  for_each-entries c (b ∷ xs) r =
      for_each-at c b (suc (length xs)) r.ring.0 r.count
      ∙ walk-Chain c.heap b b xs r.ring.1 r.distinct.0

  pub empty-Represents :
      (c : Cache K V) → c.head ≡ none → c.lookup ≡ [] → c.cur_size ≡ 0 → Represents same c []
  unfolding mem find
  empty-Represents c h m s = record {
    ring = h;
    distinct = tt;
    below = λ a i. absurd (cc);
    sound = λ k a i. absurd (ground (arith, m));
    complete = λ a i. absurd (cc);
    once = rw m tt;
    count = rw m refl;
    sizes = s;
  }

module _ {K V : Type 0} (same : K → K → Bool) (eq : IsEquality same) (f : Option (K → V → ℕ))
    (max : ℕ) where
  set-at :
      (k : K) (v : V) (c c1 c2 : Cache K V) (m : ℕ)
      → store same k v c ≡ some c1
      → length c1.lookup ≡ m
      → evict same (suc m) c1 ≡ some c2
      → set same k v c ≡ some c2
  unfolding set
  set-at k v c c1 c2 m h e run = rw (set, h, e, run) refl

  pub set-Shows :
      (k : K) (v : V) (c : Cache K V) (l : List (K × V))
      → Shows same f max c l
      → (c' : Cache K V) × (set same k v c ≡ some c')
        × Shows same f max c' (limited f max ((k, v) ∷ drop_key same k l))
  set-Shows k v c l s =
      let st = store-Stored same eq f max k v c l s in
      let t = st.shows in
      let ev =
        evict-Evicted same eq (suc (length t.places)) st.result t.places t.represents
          (omega arith) in
      (
        ev.result,
        set-at k v c st.result ev.result (length t.places) st.returns t.represents.count ev.returns,
        record {
          places = ev.places;
          represents = ev.represents;
          shown = ev.keeps ∙ rw (t.sizes, t.limit, t.shown) refl;
          limit = ev.max_kept ∙ t.limit;
          sizes = ev.sizes_kept ∙ t.sizes;
        },
      )

  call-put :
      (k : K) (v : V) (c c' : Cache K V)
      → set same k v c ≡ some c'
      → call same (put k v) c ≡ some (done, c')
  unfolding call
  call-put k v c c' h = rw (call, h) refl

  call-get :
      (k : K) (c c' : Cache K V) (v : Option V)
      → get_ok same k c ≡ some (v, c')
      → call same (get k) c ≡ some (value_of v, c')
  unfolding call
  call-get k c c' v h = rw (call, h) refl

  call-oldest :
      (c c' : Cache K V) (e : Option (K × V))
      → pop_oldest same c ≡ (e, c')
      → call same remove_oldest c ≡ some (oldest_of e, c')
  unfolding call
  call-oldest c c' e h = ap (λ (r : Option (K × V) × Cache K V). some (oldest_of r.0, r.1)) h

  call-peek_ok :
      (k : K) (c : Cache K V) (v : Option V)
      → peek_ok same k c ≡ v
      → call same (peek k) c ≡ some (value_of v, c)
  unfolding call
  call-peek_ok k c v h = rw (call, h) refl

  call-delete : (k : K) (c : Cache K V) → call same (remove k) c ≡ some (done, delete same k c)
  unfolding call
  call-delete k c = refl

  call-clear : (c : Cache K V) → call same remove_all c ≡ some (done, clear same c)
  unfolding call
  call-clear c = refl

  clear-Shows :
      (c : Cache K V) (l : List (K × V)) → Shows same f max c l → Shows same f max (clear same c) []
  unfolding clear
  clear-Shows c l s = record {
    places = [];
    represents = empty-Represents same (clear same c) refl refl refl;
    shown = refl;
    limit = s.limit;
    sizes = s.sizes;
  }

  -- one call
  call-Shows :
      (o : Op K V) (c : Cache K V) (l : List (K × V))
      → Shows same f max c l
      → (c' : Cache K V) × (call same o c ≡ some (answer same o l, c'))
        × Shows same f max c' (after same f max o l)
  unfolding answer after
  call-Shows (put k v) c l s =
      let (c', run, t) = set-Shows k v c l s in (c', call-put k v c c' run, t)
  call-Shows (get k) c l s =
      let (c', run, t) = get_ok-Shows same eq f max k c l s in
      (c', call-get k c c' (lookup_of same k l) run, t)
  call-Shows (peek k) c l s =
      (c, call-peek_ok k c (lookup_of same k l) (peek_ok-Shows same eq f max k c l s), s)
  call-Shows (remove k) c l s =
      (delete same k c, call-delete k c, delete-Shows same eq f max k c l s)
  call-Shows remove_oldest c l s =
      let (c', run, t) = pop_oldest-Shows same eq f max c l s in
      (c', call-oldest c c' (last l) run, t)
  call-Shows remove_all c l s = (clear same c, call-clear c, clear-Shows c l s)

  calls-next :
      (o : Op K V) (os : List (Op K V)) (c c1 c2 : Cache K V) (r : Out K V) (q : List (Out K V))
      → call same o c ≡ some (r, c1)
      → calls same os c1 ≡ some (q, c2)
      → calls same (o ∷ os) c ≡ some (r ∷ q, c2)
  unfolding calls
  calls-next o os c c1 c2 r q h1 h2 = rw (calls, h1, h2) refl

  pub calls-Shows :
      (os : List (Op K V)) (c : Cache K V) (l : List (K × V))
      → Shows same f max c l
      → (c' : Cache K V) × (calls same os c ≡ some (outs same f max os l, c'))
        × Shows same f max c' (after_all same f max os l)
  unfolding calls outs after_all
  calls-Shows [] c l s = (c, refl, s)
  calls-Shows (o ∷ os) c l s =
      let (c1, run1, s1) = call-Shows o c l s in
      let (c2, run2, s2) = calls-Shows os c1 (after same f max o l) s1 in
      (
        c2,
        calls-next o os c c1 c2 (answer same o l) (outs same f max os (after same f max o l)) run1
            run2,
        s2,
      )

  pub empty_cache-Shows : (h : Heap K V) → Shows same f max (empty_cache f max h) []
  unfolding empty_cache
  empty_cache-Shows h = record {
    places = [];
    represents = empty-Represents same (empty_cache f max h) refl refl refl;
    shown = refl;
    limit = refl;
    sizes = refl;
  }

  -- Any calls of `Set`, `GetOk`, `PeekOk`, `Delete`, `DeleteOldest` and `Clear`, in any order from
  -- the empty cache, return: no nil pointer is followed and the loop of `Set` ends. The values
  -- returned, and the entries that `ForEach` visits afterwards with their order, are those of a
  -- plain list, where `Set` puts the entry first in place of the one with its key and keeps the
  -- entries from the front on that fit together, `GetOk` moves an entry to the front, and
  -- `DeleteOldest` takes the last one; `Len` and `Size` are the list's length and the sum of its
  -- sizes. The test on keys has to be equality.
  pub calls-refine :
      (os : List (Op K V)) (h : Heap K V)
      → (c' : Cache K V) × (calls same os (empty_cache f max h) ≡ some (outs same f max os [], c'))
        × (for_each c' ≡ after_all same f max os [])
        × (len c' ≡ length (after_all same f max os []))
        × (size c' ≡ total_of f (after_all same f max os []))
  calls-refine os h =
      let (c', run, s) = calls-Shows os (empty_cache f max h) [] (empty_cache-Shows h) in
      (
        c',
        run,
        for_each-entries same c' s.places s.represents ∙ s.shown,
        len-Shows same f max c' (after_all same f max os []) s,
        size-Shows same f max c' (after_all same f max os []) s,
      )
