-- ===== src/Lru/Represents.antt =====
-- What holds of a cache of internal/lru/lru.go: its entries, the most recently used first.
use gomodfs.Base.{
  ℕ, suc, ◌+◌, ◌≡◌, ◌<◌, refl, arith, List, [], ◌∷◌, ◌++◌, Option, none, some, Bool, true, length,
  length-append,
}
use gomodfs.Lru.{Heap, Cache, find, size_with}
use gomodfs.Lru.Addresses.{mem, Distinct, mem-append, Apart-append, Distinct-append}
use gomodfs.Lru.Links.{Ptrs, Chain}
use gomodfs.Lru.Lookup.{OneEach}

-- the pointers make a ring of the entries `ps`, which the head begins
abbrev pub RingOf : Ptrs → Ptrs → Option ℕ → List ℕ → Type 0
RingOf n p hd [] = hd ≡ none
RingOf n p hd (a ∷ ps) = (hd ≡ some a) × Chain n p a ps a

-- the sizes of entries together
abbrev pub total : {K V : Type 0} → Option (K → V → ℕ) → Heap K V → List ℕ → ℕ
total f h [] = 0
total f h (a ∷ ps) = size_with f (h.key a) (h.value a) + total f h ps

pub record Represents {K V : Type 0} (same : K → K → Bool) (c : Cache K V) (ps : List ℕ)
    : Type 0 where
  pub ring : RingOf c.heap.next c.heap.prev c.head ps
  pub distinct : Distinct ps
  pub below : (a : ℕ) → mem a ps ≡ true → a < c.heap.fresh
  pub sound :
      (k : K) (a : ℕ) → find same k c.lookup ≡ some a → (mem a ps ≡ true) × (c.heap.key a ≡ k)
  pub complete : (a : ℕ) → mem a ps ≡ true → find same (c.heap.key a) c.lookup ≡ some a
  pub once : OneEach same c.lookup
  pub count : length c.lookup ≡ length ps
  pub sizes : c.cur_size ≡ total c.size_of_entry c.heap ps

-- moving an element to the front
pub mem-moved :
    (x e : ℕ) (before after : List ℕ)
    → mem x (before ++ (e ∷ after)) ≡ mem x (e ∷ (before ++ after))
unfolding mem
mem-moved x e before after =
    ground (arith, mem-append x before (e ∷ after), mem-append x before after)

pub Distinct-moved :
    (e : ℕ) (before after : List ℕ)
    → Distinct (before ++ (e ∷ after))
    → Distinct (e ∷ (before ++ after))
unfolding mem
Distinct-moved e before after d =
    let both = Apart-append before (e ∷ after) d in
    (
      ground (arith, mem-append e before after, both.apart e, both.right.0),
      Distinct-append before after (record {
        left = both.left;
        right = both.right.1;
        apart = λ a h. ground (arith, both.apart a);
      }),
    )

pub length-moved :
    (e : ℕ) (before after : List ℕ)
    → length (before ++ (e ∷ after)) ≡ suc (length (before ++ after))
length-moved e before after =
    omega (arith, length-append before (e ∷ after), length-append before after)

pub total-moved :
    {K V : Type 0} (f : Option (K → V → ℕ)) (h : Heap K V) (e : ℕ) (before after : List ℕ)
    → total f h (before ++ (e ∷ after)) ≡ total f h (e ∷ (before ++ after))
total-moved f h e [] after = refl
total-moved f h e (b ∷ before) after = omega (arith, total-moved f h e before after)

-- writes outside the entries leave the sizes alone
pub total-frame :
    {K V : Type 0} (f : Option (K → V → ℕ)) (h g : Heap K V) (ps : List ℕ)
    → ((a : ℕ) → mem a ps ≡ true → (g.key a ≡ h.key a) × (g.value a ≡ h.value a))
    → total f g ps ≡ total f h ps
unfolding mem
total-frame f h g [] e = refl
total-frame f h g (a ∷ ps) e =
    let (ek, ev) = e a (ground arith) in
    rw (ek, ev, total-frame f h g ps (λ b i. e b (ground arith))) refl
