-- ===== src/Lru/Spec.antt =====
-- What a cache of internal/lru/lru.go promises, on the list of its entries from the most recently
-- used one to the least.
use gomodfs.Base.{
  ℕ, ◌+◌, ◌-◌, ◌≡◌, ◌≤◌, ◌<◌, List, [], ◌∷◌, ◌++◌, Option, none, some, Bool, ◌==◌, leb,
  if◌then◌else◌, arith, refl, ap,
}
use gomodfs.Lru.{size_with}

module _ {K V : Type 0} where
  abbrev pub total_of : Option (K → V → ℕ) → List (K × V) → ℕ
  total_of f [] = 0
  total_of f ((k, v) ∷ l) = size_with f k v + total_of f l

  -- the entries from the front on that fit together
  unfoldable pub keep : Option (K → V → ℕ) → ℕ → List (K × V) → List (K × V)
  keep f room [] = []
  keep f room ((k, v) ∷ l) =
      let rest = keep f (room - size_with f k v) l in
      if leb (size_with f k v) room then (k, v) ∷ rest else []

  -- a limit of 0 is no limit
  unfoldable pub limited : Option (K → V → ℕ) → ℕ → List (K × V) → List (K × V)
  unfolding keep
  limited f max l = if max == 0 then l else keep f max l

  -- the last element, and the others
  unfoldable pub last : List (K × V) → Option (K × V)
  last [] = none
  last (e ∷ l) = elim l [ [] ↦ some e | d ∷ r ↦ last l ]

  unfoldable pub init : List (K × V) → List (K × V)
  init [] = []
  init (e ∷ l) = elim l [ [] ↦ [] | d ∷ r ↦ e ∷ init l ]

  pub keep_all :
      (f : Option (K → V → ℕ)) (room : ℕ) (l : List (K × V))
      → total_of f l ≤ room
      → keep f room l ≡ l
  unfolding keep
  keep_all f room [] h = refl
  keep_all f room ((k, v) ∷ l) h = ground (arith, keep_all f (room - size_with f k v) l)

  pub keep-snoc :
      (f : Option (K → V → ℕ)) (room : ℕ) (l : List (K × V)) (k : K) (v : V)
      → room < total_of f (l ++ ((k, v) ∷ []))
      → keep f room (l ++ ((k, v) ∷ [])) ≡ keep f room l
  unfolding keep
  keep-snoc f room [] k v h = ground arith
  keep-snoc f room ((j, u) ∷ l) k v h = ground (arith, keep-snoc f (room - size_with f j u) l k v)

  pub total_of-keep :
      (f : Option (K → V → ℕ)) (room : ℕ) (l : List (K × V)) → total_of f (keep f room l) ≤ room
  unfolding keep
  total_of-keep f room [] = omega arith
  total_of-keep f room ((k, v) ∷ l) = ground (arith, total_of-keep f (room - size_with f k v) l)

  pub last-snoc : (l : List (K × V)) (e : K × V) → last (l ++ (e ∷ [])) ≡ some e
  unfolding last
  last-snoc [] e = refl
  last-snoc (d ∷ []) e = refl
  last-snoc (d ∷ c ∷ l) e = last-snoc (c ∷ l) e

  pub init-snoc : (l : List (K × V)) (e : K × V) → init (l ++ (e ∷ [])) ≡ l
  unfolding init
  init-snoc [] e = refl
  init-snoc (d ∷ []) e = refl
  init-snoc (d ∷ c ∷ l) e = ap (◌∷◌ d) (init-snoc (c ∷ l) e)

module _ {K V : Type 0} (same : K → K → Bool) where
  unfoldable pub lookup_of : K → List (K × V) → Option V
  lookup_of k [] = none
  lookup_of k ((j, v) ∷ l) = if same j k then some v else lookup_of k l

  unfoldable pub drop_key : K → List (K × V) → List (K × V)
  drop_key k [] = []
  drop_key k ((j, v) ∷ l) = let rest = drop_key k l in if same j k then rest else (j, v) ∷ rest

  -- a key that is got comes to the front
  unfoldable pub touched : K → List (K × V) → List (K × V)
  unfolding lookup_of drop_key
  touched k l = elim (lookup_of k l) [ none ↦ l | some v ↦ (k, v) ∷ drop_key k l ]
