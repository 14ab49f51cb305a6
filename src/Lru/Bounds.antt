-- ===== src/Lru/Bounds.antt =====
-- The limit of a cache of internal/lru/lru.go, and the entry that `Set` leaves.
use gomodfs.Base.{
  ℕ, ◌+◌, ◌≡◌, ◌≤◌, ◌<◌, inl, inr, arith, List, [], ◌∷◌, Option, some, Bool, Bool-cases,
  Option-cases,
}
use gomodfs.Lru.{Heap, Cache, size_with, size}
use gomodfs.Lru.Lookup.{IsEquality}
use gomodfs.Lru.Spec.{total_of, lookup_of, drop_key, touched, limited, init, total_of-keep}
use gomodfs.Lru.Runs.{
  Op, put, get, peek, remove, remove_oldest, remove_all, empty_cache, calls, after, after_all, outs,
}
use gomodfs.Lru.Refines.{calls-refine}

module _ {K V : Type 0} (same : K → K → Bool) (eq : IsEquality same) (f : Option (K → V → ℕ)) where
  total_of-drop_key : (k : K) (l : List (K × V)) → total_of f (drop_key same k l) ≤ total_of f l
  unfolding drop_key
  total_of-drop_key k [] = omega arith
  total_of-drop_key k ((j, v) ∷ l) = ground (arith, total_of-drop_key k l)

  total_of-init : (l : List (K × V)) → total_of f (init l) ≤ total_of f l
  unfolding init
  total_of-init [] = omega arith
  total_of-init (e ∷ []) = omega arith
  total_of-init (e ∷ d ∷ l) = omega (arith, total_of-init (d ∷ l))

  total_of-found :
      (k : K) (v : V) (l : List (K × V))
      → lookup_of same k l ≡ some v
      → size_with f k v + total_of f (drop_key same k l) ≤ total_of f l
  unfolding lookup_of drop_key
  total_of-found k v [] h = absurd (cc)
  total_of-found k v ((j, u) ∷ l) h = elim (Bool-cases (same j k)) [
    | inl is ↦
        let here : size_with f j u ≡ size_with f k v = ground (arith, (eq j k).0 is) in
        let less = total_of-drop_key k l in rw is (omega (arith, here, less))
    | inr differs ↦
        let rest = total_of-found k v l (rw differs at h) in rw differs (omega (arith, rest))
  ]

  pub total_of-touched : (k : K) (l : List (K × V)) → total_of f (touched same k l) ≤ total_of f l
  unfolding touched
  total_of-touched k l = elim (Option-cases (lookup_of same k l)) [
    | inl h ↦ rw (touched, h) (omega arith)
    | inr (v, h) ↦ rw (touched, h) (total_of-found k v l h)
  ]

  module _ (max : ℕ) where
    after-total :
        0 < max
        → (o : Op K V) (l : List (K × V)) → total_of f l ≤ max
        → total_of f (after same f max o l) ≤ max
    unfolding after limited
    after-total ne (put k v) l h = ground (arith, total_of-keep f max ((k, v) ∷ drop_key same k l))
    after-total ne (get k) l h = omega (arith, h, total_of-touched k l)
    after-total ne (peek k) l h = h
    after-total ne (remove k) l h = omega (arith, h, total_of-drop_key k l)
    after-total ne remove_oldest l h = omega (arith, h, total_of-init l)
    after-total ne remove_all l h = omega arith

    after_all-total :
        0 < max
        → (os : List (Op K V)) (l : List (K × V)) → total_of f l ≤ max
        → total_of f (after_all same f max os l) ≤ max
    unfolding after_all
    after_all-total ne [] l h = h
    after_all-total ne (o ∷ os) l h =
        after_all-total ne os (after same f max o l) (after-total ne o l h)

    -- After any calls from the empty cache, `Size` is at most `MaxSize` where that is not 0.
    pub size-bound :
        0 < max
        → (os : List (Op K V)) (h : Heap K V)
        → (c' : Cache K V) × (calls same os (empty_cache f max h)
            ≡ some (outs same f max os [], c'))
          × (size c' ≤ max)
    size-bound ne os h =
        let (c', run, each, count, sizes) = calls-refine same eq f max os h in
        (c', run, omega (arith, sizes, after_all-total ne os [] (omega arith)))
