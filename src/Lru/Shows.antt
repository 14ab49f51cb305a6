-- ===== src/Lru/Shows.antt =====
-- The list of entries that a cache of internal/lru/lru.go stands for.
use gomodfs.Base.{
  ℕ, suc, ◌≡◌, inl, inr, refl, arith, List, [], ◌∷◌, ◌++◌, Option, none, some, Bool, true, false,
  Bool-cases, length, ap, sym, ◌∙◌,
}
use gomodfs.Lru.{Heap, Cache, find}
use gomodfs.Lru.Addresses.{mem, split_at}
use gomodfs.Lru.Lookup.{IsEquality}
use gomodfs.Lru.Represents.{total, Represents, mem-moved, Distinct-moved}
use gomodfs.Lru.Spec.{total_of, lookup_of, drop_key}

module _ {K V : Type 0} where
  abbrev pub entries : Heap K V → List ℕ → List (K × V)
  entries h [] = []
  entries h (a ∷ ps) = (h.key a, h.value a) ∷ entries h ps

  pub entries-append :
      (h : Heap K V) (ps qs : List ℕ) → entries h (ps ++ qs) ≡ entries h ps ++ entries h qs
  entries-append h [] qs = refl
  entries-append h (a ∷ ps) qs = ap (◌∷◌ (h.key a, h.value a)) (entries-append h ps qs)

  pub entries-frame :
      (h g : Heap K V) (ps : List ℕ)
      → ((a : ℕ) → mem a ps ≡ true → (g.key a ≡ h.key a) × (g.value a ≡ h.value a))
      → entries g ps ≡ entries h ps
  unfolding mem
  entries-frame h g [] e = refl
  entries-frame h g (a ∷ ps) e =
      let (ek, ev) = e a (ground arith) in
      rw (ek, ev, entries-frame h g ps (λ b i. e b (ground arith))) refl

  pub total_of-entries :
      (f : Option (K → V → ℕ)) (h : Heap K V) (ps : List ℕ)
      → total_of f (entries h ps) ≡ total f h ps
  total_of-entries f h [] = refl
  total_of-entries f h (a ∷ ps) = omega (arith, total_of-entries f h ps)

  pub length-entries : (h : Heap K V) (ps : List ℕ) → length (entries h ps) ≡ length ps
  length-entries h [] = refl
  length-entries h (a ∷ ps) = ap suc (length-entries h ps)

module _ {K V : Type 0} (same : K → K → Bool) where
  -- the cache `c`, which has the limit `max` and the sizes `f`, stands for the list `l`
  pub record Shows (f : Option (K → V → ℕ)) (max : ℕ) (c : Cache K V) (l : List (K × V))
      : Type 0 where
    pub places : List ℕ
    pub represents : Represents same c places
    pub shown : entries c.heap places ≡ l
    pub limit : c.max_size ≡ max
    pub sizes : c.size_of_entry ≡ f

  pub size-Shows :
      (f : Option (K → V → ℕ)) (max : ℕ) (c : Cache K V) (l : List (K × V))
      → Shows f max c l
      → c.cur_size ≡ total_of f l
  size-Shows f max c l s =
      s.represents.sizes
      ∙ rw (s.sizes) (sym (total_of-entries f c.heap s.places))
      ∙ ap (total_of f) s.shown

  pub len-Shows :
      (f : Option (K → V → ℕ)) (max : ℕ) (c : Cache K V) (l : List (K × V))
      → Shows f max c l
      → length c.lookup ≡ length l
  len-Shows f max c l s =
      s.represents.count ∙ sym (length-entries c.heap s.places) ∙ ap length s.shown

  -- no entry of `ps` has the key
  abbrev pub NoKey : Heap K V → K → List ℕ → Type 0
  NoKey h k ps = (a : ℕ) → mem a ps ≡ true → same (h.key a) k ≡ false

  pub lookup_of-NoKey :
      (h : Heap K V) (k : K) (ps : List ℕ) → NoKey h k ps → lookup_of same k (entries h ps) ≡ none
  unfolding lookup_of mem
  lookup_of-NoKey h k [] differs = refl
  lookup_of-NoKey h k (a ∷ ps) differs =
      rw (differs a (ground arith)) (lookup_of-NoKey h k ps (λ b i. differs b (ground arith)))

  pub drop_key-NoKey :
      (h : Heap K V) (k : K) (ps : List ℕ)
      → NoKey h k ps
      → drop_key same k (entries h ps) ≡ entries h ps
  unfolding drop_key mem
  drop_key-NoKey h k [] differs = refl
  drop_key-NoKey h k (a ∷ ps) differs =
      rw (differs a (ground arith))
        (ap (◌∷◌ (h.key a, h.value a)) (drop_key-NoKey h k ps (λ b i. differs b (ground arith))))

  pub at_split :
      (h : Heap K V) (k : K) (e : ℕ) (before after : List ℕ)
      → same (h.key e) k ≡ true
      → NoKey h k (before ++ after)
      → (lookup_of same k (entries h (before ++ (e ∷ after))) ≡ some (h.value e))
        × (drop_key same k (entries h (before ++ (e ∷ after))) ≡ entries h (before ++ after))
  unfolding lookup_of drop_key mem
  at_split h k e [] after is others = (rw is refl, rw is (drop_key-NoKey h k after others))
  at_split h k e (b ∷ before) after is others =
      let (l, d) = at_split h k e before after is (λ a i. others a (ground (arith, i))) in
      let differs = others b (ground arith) in
      (rw differs l, rw differs (ap (◌∷◌ (h.key b, h.value b)) d))

  -- a key that the map of the cache has, and one that it has not
  pub record Found (c : Cache K V) (ps : List ℕ) (k : K) (e : ℕ) : Type 0 where
    pub before : List ℕ
    pub after : List ℕ
    pub split : ps ≡ before ++ (e ∷ after)
    pub is_key : c.heap.key e ≡ k
    pub no_other : NoKey c.heap k (before ++ after)

  module _ (eq : IsEquality same) where
    pub found :
        (c : Cache K V) (ps : List ℕ) (k : K) (e : ℕ)
        → Represents same c ps
        → find same k c.lookup ≡ some e
        → Found c ps k e
    unfolding mem
    found c ps k e r h =
        let (i, is) = r.sound k e h in
        let (before, after, s) = split_at e ps i in
        record {
          before = before;
          after = after;
          split = s;
          is_key = is;
          no_other = λ a j. elim (Bool-cases (same (c.heap.key a) k)) [
            | inr differs ↦ differs
            | inl equal ↦
                let d = Distinct-moved e before after (rw s at r.distinct) in
                let known = r.complete a (rw s (rw (mem-moved a e before after) (ground arith))) in
                absurd (ground (arith, (eq (c.heap.key a) k).0 equal, known, d.0))
          ];
        }

    pub not_found :
        (c : Cache K V) (ps : List ℕ) (k : K)
        → Represents same c ps
        → find same k c.lookup ≡ none
        → NoKey c.heap k ps
    not_found c ps k r h a i = ground (arith, r.complete a i, eq (c.heap.key a) k)
