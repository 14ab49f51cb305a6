-- ===== src/Lru/Reads.antt =====
-- The methods of internal/lru/lru.go that read entries or delete them, on a cache that stands for a
-- list.
use gomodfs.Base.{
  ℕ, ◌≡◌, ◌⊎◌, inl, inr, refl, List, [], ◌∷◌, ◌++◌, Option, none, some, Bool, true, Option-cases,
  sym, ap, ◌∙◌,
}
use gomodfs.Lru.{Cache, find, move_to_front, get_ok, peek_ok, delete, pop_oldest, delete_element}
use gomodfs.Lru.Lookup.{IsEquality}
use gomodfs.Lru.Represents.{Represents}
use gomodfs.Lru.Moves.{with_front, move_to_front-Represents}
use gomodfs.Lru.Deletes.{without, delete_element-Represents}
use gomodfs.Lru.Evicts.{pop-Represents}
use gomodfs.Lru.Spec.{lookup_of, drop_key, touched, last, init, last-snoc, init-snoc}
use gomodfs.Lru.Shows.{
  entries, entries-append, entries-frame, Shows, lookup_of-NoKey, drop_key-NoKey, at_split, found,
  not_found,
}

module _ {K V : Type 0} (same : K → K → Bool) (eq : IsEquality same) (f : Option (K → V → ℕ))
    (max : ℕ) where
  -- what the lookup of a key that the cache has finds
  pub record At (c : Cache K V) (l : List (K × V)) (k : K) : Type 0 where
    pub entry : ℕ
    pub finds : find same k c.lookup ≡ some entry
    pub before : List ℕ
    pub after : List ℕ
    pub represents : Represents same c (before ++ (entry ∷ after))
    pub is_key : c.heap.key entry ≡ k
    pub value_at : lookup_of same k l ≡ some (c.heap.value entry)
    pub others : entries c.heap (before ++ after) ≡ drop_key same k l

  pub record Missing (c : Cache K V) (l : List (K × V)) (k : K) : Type 0 where
    pub finds : find same k c.lookup ≡ none
    pub absent : lookup_of same k l ≡ none
    pub unchanged : drop_key same k l ≡ l

  pub look :
      (k : K) (c : Cache K V) (l : List (K × V)) → Shows same f max c l → At c l k ⊎ Missing c l k
  look k c l s = elim (Option-cases (find same k c.lookup)) [
    | inl h ↦
        let out = not_found same eq c s.places k s.represents h in
        inr (record {
          finds = h;
          absent = ap (lookup_of same k) (sym s.shown) ∙ lookup_of-NoKey same c.heap k s.places out;
          unchanged =
              ap (drop_key same k) (sym s.shown)
              ∙ drop_key-NoKey same c.heap k s.places out
              ∙ s.shown;
        })
    | inr (e, h) ↦
        let at = found same eq c s.places k e s.represents h in
        let is : same (c.heap.key e) k ≡ true = (eq (c.heap.key e) k).1 at.is_key in
        let (here, rest) = at_split same c.heap k e at.before at.after is at.no_other in
        let whole = sym s.shown ∙ ap (entries c.heap) at.split in
        inl (record {
          entry = e;
          finds = h;
          before = at.before;
          after = at.after;
          represents = rw (at.split) at s.represents;
          is_key = at.is_key;
          value_at = ap (lookup_of same k) whole ∙ here;
          others = sym (ap (drop_key same k) whole ∙ rest);
        })
  ]

  get_ok-at :
      (k : K) (c c' : Cache K V) (e : ℕ)
      → find same k c.lookup ≡ some e
      → move_to_front e c ≡ some c'
      → get_ok same k c ≡ some (some (c'.heap.value e), c')
  unfolding get_ok
  get_ok-at k c c' e h m = rw (get_ok, h, m) refl

  get_ok-missing :
      (k : K) (c : Cache K V) → find same k c.lookup ≡ none → get_ok same k c ≡ some (none, c)
  unfolding get_ok
  get_ok-missing k c h = rw (get_ok, h) refl

  touched-at :
      (k : K) (l : List (K × V)) (v : V)
      → lookup_of same k l ≡ some v
      → touched same k l ≡ (k, v) ∷ drop_key same k l
  unfolding touched
  touched-at k l v h = rw (touched, h) refl

  touched-missing : (k : K) (l : List (K × V)) → lookup_of same k l ≡ none → touched same k l ≡ l
  unfolding touched
  touched-missing k l h = rw (touched, h) refl

  pub get_ok-Shows :
      (k : K) (c : Cache K V) (l : List (K × V))
      → Shows same f max c l
      → (c' : Cache K V) × (get_ok same k c ≡ some (lookup_of same k l, c'))
        × Shows same f max c' (touched same k l)
  get_ok-Shows k c l s = elim (look k c l s) [
    | inr out ↦
        (c, rw (out.absent) (get_ok-missing k c out.finds), rw (touched-missing k l out.absent) s)
    | inl at ↦
        let (n, p, runs, moved) =
          move_to_front-Represents same at.entry c at.before at.after at.represents in
        let c' = with_front same at.entry n p c in
        (
          c',
          rw (at.value_at) (get_ok-at k c c' at.entry at.finds runs),
          rw (touched-at k l (c.heap.value at.entry) at.value_at) (record {
            places = at.entry ∷ (at.before ++ at.after);
            represents = moved;
            shown =
                rw
                  (
                    at.is_key,
                    entries-frame c.heap c'.heap (at.before ++ at.after) (λ a i. (refl, refl)),
                    at.others,
                  )
                  refl;
            limit = s.limit;
            sizes = s.sizes;
          }),
        )
  ]

  pub peek_ok-Shows :
      (k : K) (c : Cache K V) (l : List (K × V))
      → Shows same f max c l
      → peek_ok same k c ≡ lookup_of same k l
  unfolding peek_ok
  peek_ok-Shows k c l s = elim (look k c l s) [
    | inr out ↦ rw (peek_ok, out.finds, out.absent) refl
    | inl at ↦ rw (peek_ok, at.finds, at.value_at) refl
  ]

  delete-at :
      (k : K) (c : Cache K V) (e : ℕ)
      → find same k c.lookup ≡ some e
      → delete same k c ≡ delete_element same e c
  unfolding delete
  delete-at k c e h = rw (delete, h) refl

  delete-missing : (k : K) (c : Cache K V) → find same k c.lookup ≡ none → delete same k c ≡ c
  unfolding delete
  delete-missing k c h = rw (delete, h) refl

  pub delete-Shows :
      (k : K) (c : Cache K V) (l : List (K × V))
      → Shows same f max c l
      → Shows same f max (delete same k c) (drop_key same k l)
  delete-Shows k c l s = elim (look k c l s) [
    | inr out ↦ rw (delete-missing k c out.finds, out.unchanged) s
    | inl at ↦
        let (hd, n, p, runs, rest) =
          delete_element-Represents same eq at.entry c at.before at.after at.represents in
        let c' = without same eq at.entry hd n p c in
        rw (delete-at k c at.entry at.finds ∙ runs) (record {
          places = at.before ++ at.after;
          represents = rest;
          shown =
              entries-frame c.heap c'.heap (at.before ++ at.after) (λ a i. (refl, refl))
              ∙ at.others;
          limit = s.limit;
          sizes = s.sizes;
        })
  ]

  -- `pop_oldest` with the head given
  abbrev popped_at : Cache K V → Option ℕ → Option (K × V) × Cache K V
  popped_at c hd = elim hd as (λ _. Option (K × V) × Cache K V) [
    | none ↦ (none, c)
    | some b ↦ (
      some (c.heap.key (c.heap.prev b), c.heap.value (c.heap.prev b)),
      delete_element same (c.heap.prev b) c,
    )
  ]

  pop_oldest-none : (c : Cache K V) → c.head ≡ none → pop_oldest same c ≡ (none, c)
  unfolding pop_oldest
  pop_oldest-none c h = ap (popped_at c) h

  pop_oldest-some :
      (c : Cache K V) (b : ℕ)
      → c.head ≡ some b
      → pop_oldest same c ≡ (
        some (c.heap.key (c.heap.prev b), c.heap.value (c.heap.prev b)),
        delete_element same (c.heap.prev b) c,
      )
  unfolding pop_oldest
  pop_oldest-some c b h = ap (popped_at c) h

  pub pop_oldest-Shows :
      (c : Cache K V) (l : List (K × V))
      → Shows same f max c l
      → (c' : Cache K V) × (pop_oldest same c ≡ (last l, c')) × Shows same f max c' (init l)
  unfolding last init
  pop_oldest-Shows c l s = popping s.places s.represents s.shown
    where
      popping :
          (ps : List ℕ)
          → Represents same c ps
          → entries c.heap ps ≡ l
          → (c' : Cache K V) × (pop_oldest same c ≡ (last l, c')) × Shows same f max c' (init l)
      popping [] r sh = (
        c,
        rw (sym sh) (pop_oldest-none c r.ring),
        rw (sym sh) (record {
          places = [];
          represents = r;
          shown = refl;
          limit = s.limit;
          sizes = s.sizes;
        }),
      )
      popping (b ∷ xs) r sh =
          let pop = pop-Represents same eq b xs c r in
          let e = c.heap.prev pop.first in
          let c' = without same eq e pop.head' pop.next' pop.prev' c in
          let whole : l ≡ entries c.heap pop.front ++ ((c.heap.key e, c.heap.value e) ∷ []) =
            sym sh ∙ ap (entries c.heap) pop.split ∙ entries-append c.heap pop.front (e ∷ []) in
          (
            c',
            rw (whole, last-snoc (entries c.heap pop.front) (c.heap.key e, c.heap.value e))
                (pop_oldest-some c pop.first pop.at_head
                  ∙ ap (λ (d : Cache K V). (some (c.heap.key e, c.heap.value e), d)) pop.runs),
            rw (whole, init-snoc (entries c.heap pop.front) (c.heap.key e, c.heap.value e))
                (record {
                  places = pop.front;
                  represents = pop.rest;
                  shown = entries-frame c.heap c'.heap pop.front (λ a i. (refl, refl));
                  limit = s.limit;
                  sizes = s.sizes;
                }),
          )
