-- ===== src/Lru/Evicts.antt =====
-- The loop of `Set` in internal/lru/lru.go, which deletes the oldest entries.
use gomodfs.Base.{
  ℕ, zero, suc, ◌≡◌, ◌<◌, inl, inr, refl, arith, List, [], ◌∷◌, ◌++◌, Option, none, some, Bool,
  true, false, Bool-cases, length, ◌≢◌, length-append, append-nil, sym, ap, ◌∙◌,
}
use gomodfs.Lru.{Cache, delete_oldest, delete_element, evict, over}
use gomodfs.Lru.Links.{Ptrs, Chain}
use gomodfs.Lru.Lookup.{IsEquality}
use gomodfs.Lru.Represents.{Represents}
use gomodfs.Lru.Deletes.{without, delete_element-Represents}
use gomodfs.Lru.Spec.{total_of, limited, keep_all, keep-snoc}
use gomodfs.Lru.Shows.{entries, entries-append, entries-frame, total_of-entries}

-- the entry before the head is the last one
pub last_place :
    (n p : Ptrs) (a : ℕ) (xs : List ℕ) (b : ℕ)
    → Chain n p a xs b
    → (front : List ℕ) × (a ∷ xs ≡ front ++ (p b ∷ []))
last_place n p a [] b (to, back) = ([], ap (λ (x : ℕ). x ∷ []) (sym back))
last_place n p a (x ∷ xs) b (l, c) =
    let (front, s) = last_place n p x xs b c in (a ∷ front, ap (◌∷◌ a) s)

module _ {K V : Type 0} (same : K → K → Bool) (eq : IsEquality same) where
  -- what a deletion of the oldest entry leaves
  pub record Popped (c : Cache K V) (ps : List ℕ) : Type 0 where
    pub first : ℕ
    pub at_head : c.head ≡ some first
    pub front : List ℕ
    pub split : ps ≡ front ++ (c.heap.prev first ∷ [])
    pub head' : Option ℕ
    pub next' : Ptrs
    pub prev' : Ptrs
    pub runs :
        delete_element same (c.heap.prev first) c
        ≡ without same eq (c.heap.prev first) head' next' prev' c
    pub rest : Represents same (without same eq (c.heap.prev first) head' next' prev' c) front

  pub pop-Represents :
      (b : ℕ) (xs : List ℕ) (c : Cache K V) → Represents same c (b ∷ xs) → Popped c (b ∷ xs)
  pop-Represents b xs c r =
      let (hd, chain) = r.ring in
      let (front, s) = last_place c.heap.next c.heap.prev b xs b chain in
      let (hd', n, p, runs, rest) =
        delete_element-Represents same eq (c.heap.prev b) c front [] (rw s at r) in
      record {
        first = b;
        at_head = hd;
        front = front;
        split = s;
        head' = hd';
        next' = n;
        prev' = p;
        runs = runs;
        rest = rw (append-nil front) at rest;
      }

  -- what the loop leaves
  pub record Evicted (fuel : ℕ) (c : Cache K V) (l : List (K × V)) : Type 0 where
    pub result : Cache K V
    pub places : List ℕ
    pub returns : evict same fuel c ≡ some result
    pub represents : Represents same result places
    pub keeps : entries result.heap places ≡ limited c.size_of_entry c.max_size l
    pub max_kept : result.max_size ≡ c.max_size
    pub sizes_kept : result.size_of_entry ≡ c.size_of_entry

  evict_stop : (fuel : ℕ) (c : Cache K V) → over c ≡ false → evict same (suc fuel) c ≡ some c
  unfolding evict
  evict_stop fuel c h = rw (evict, h) refl

  evict_more :
      (fuel : ℕ) (c c' : Cache K V)
      → over c ≡ true
      → delete_oldest same c ≡ some c'
      → evict same (suc fuel) c ≡ evict same fuel c'
  unfolding evict
  evict_more fuel c c' h d = rw (evict, h, d) refl

  delete_oldest-at :
      (c : Cache K V) (b : ℕ)
      → c.head ≡ some b
      → delete_oldest same c ≡ some (delete_element same (c.heap.prev b) c)
  unfolding delete_oldest
  delete_oldest-at c b h =
      ap
        (λ (hd : Option ℕ). elim hd as (λ _. Option (Cache K V)) [
          | none ↦ none
          | some b' ↦ some (delete_element same (c.heap.prev b') c)
        ])
        h

  pub oldest_goes :
      (c : Cache K V) (ps : List ℕ) (pop : Popped c ps)
      → delete_oldest same c
        ≡ some (without same eq (c.heap.prev pop.first) pop.head' pop.next' pop.prev' c)
  oldest_goes c ps pop = delete_oldest-at c pop.first pop.at_head ∙ ap some pop.runs

  limited_inside :
      (c : Cache K V) (l : List (K × V))
      → over c ≡ false
      → c.cur_size ≡ total_of c.size_of_entry l
      → limited c.size_of_entry c.max_size l ≡ l
  unfolding over limited
  limited_inside c l h s = ground (arith, keep_all c.size_of_entry c.max_size l)

  limited-over :
      (c : Cache K V) (l : List (K × V)) (k : K) (v : V)
      → over c ≡ true
      → c.cur_size ≡ total_of c.size_of_entry (l ++ ((k, v) ∷ []))
      → limited c.size_of_entry c.max_size (l ++ ((k, v) ∷ []))
        ≡ limited c.size_of_entry c.max_size l
  unfolding over limited
  limited-over c l k v h s = ground (arith, keep-snoc c.size_of_entry c.max_size l k v)

  nothing_over : (c : Cache K V) → over c ≡ true → c.cur_size ≢ 0
  unfolding over
  nothing_over c h = ground arith

  -- one more round
  evict_round :
      (fuel : ℕ) (c : Cache K V) (ps : List ℕ) (pop : Popped c ps)
      → Represents same c ps
      → over c ≡ true
      → Evicted fuel
          (without same eq (c.heap.prev pop.first) pop.head' pop.next' pop.prev' c)
          (entries c.heap pop.front)
      → Evicted (suc fuel) c (entries c.heap ps)
  evict_round fuel c ps pop r h next =
      let e = c.heap.prev pop.first in
      let whole : entries c.heap ps
          ≡ entries c.heap pop.front ++ ((c.heap.key e, c.heap.value e) ∷ []) =
        rw (pop.split) (entries-append c.heap pop.front (e ∷ [])) in
      let sizes =
        r.sizes
        ∙ sym (total_of-entries c.size_of_entry c.heap ps)
        ∙ ap (total_of c.size_of_entry) whole in
      record {
        result = next.result;
        places = next.places;
        returns =
            evict_more fuel c (without same eq e pop.head' pop.next' pop.prev' c) h
              (oldest_goes c ps pop)
            ∙ next.returns;
        represents = next.represents;
        keeps =
            next.keeps
            ∙ sym
                (limited-over c (entries c.heap pop.front) (c.heap.key e) (c.heap.value e) h sizes)
            ∙ ap (limited c.size_of_entry c.max_size) (sym whole);
        max_kept = next.max_kept;
        sizes_kept = next.sizes_kept;
      }

  done :
      (fuel : ℕ) (c : Cache K V) (ps : List ℕ)
      → Represents same c ps
      → over c ≡ false
      → Evicted (suc fuel) c (entries c.heap ps)
  done fuel c ps r fits = record {
    result = c;
    places = ps;
    returns = evict_stop fuel c fits;
    represents = r;
    keeps = sym (
        limited_inside c (entries c.heap ps) fits
          (r.sizes ∙ sym (total_of-entries c.size_of_entry c.heap ps)));
    max_kept = refl;
    sizes_kept = refl;
  }

  -- the loop ends, and keeps the entries from the front on that fit together
  pub evict-Evicted :
      (fuel : ℕ) (c : Cache K V) (ps : List ℕ)
      → Represents same c ps
      → length ps < fuel
      → Evicted fuel c (entries c.heap ps)
  evict-Evicted zero c ps r h = absurd (omega (arith, h))
  evict-Evicted (suc fuel) c [] r h = elim (Bool-cases (over c)) [
    | inr fits ↦ done fuel c [] r fits
    | inl more ↦ absurd (nothing_over c more r.sizes)
  ]
  evict-Evicted (suc fuel) c (b ∷ xs) r h = elim (Bool-cases (over c)) [
    | inr fits ↦ done fuel c (b ∷ xs) r fits
    | inl more ↦
        let pop = pop-Represents b xs c r in
        let c' = without same eq (c.heap.prev pop.first) pop.head' pop.next' pop.prev' c in
        let shorter : length pop.front < fuel =
          omega
            (arith, h, ap length pop.split, length-append pop.front (c.heap.prev pop.first ∷ [])) in
        let same_entries = entries-frame c.heap c'.heap pop.front (λ a i. (refl, refl)) in
        evict_round fuel c (b ∷ xs) pop r more
          (rw same_entries at (evict-Evicted fuel c' pop.front pop.rest shorter))
  ]
