-- ===== src/Lru/Lookup.antt =====
-- The map `lookup` of internal/lru/lru.go as a list with one entry for each key.
use gomodfs.Base.{
  ℕ, suc, ◌≡◌, ◌↔◌, inl, inr, refl, arith, List, [], ◌∷◌, none, some, Bool, true, false, Bool-cases,
  length,
}
use gomodfs.Lru.{find, erase}

-- the test on keys is their equality
abbrev pub IsEquality : {K : Type 0} → (K → K → Bool) → Type 0
IsEquality {K} same = (a b : K) → (same a b ≡ true) ↔ (a ≡ b)

module _ {K : Type 0} (same : K → K → Bool) where
  abbrev pub OneEach : List (K × ℕ) → Type 0
  OneEach [] = Unit
  OneEach ((k, a) ∷ m) = (find same k m ≡ none) × OneEach m

  module _ (eq : IsEquality same) where
    pub same_refl : (k : K) → same k k ≡ true
    same_refl k = (eq k k).1 refl

    pub find-erase_same : (k : K) (m : List (K × ℕ)) → find same k (erase same k m) ≡ none
    unfolding find erase
    find-erase_same k [] = refl
    find-erase_same k ((j, a) ∷ m) = ground (arith, find-erase_same k m)

    pub find-erase_other :
        (j k : K) (m : List (K × ℕ))
        → same k j ≡ false
        → find same j (erase same k m) ≡ find same j m
    unfolding find erase
    find-erase_other j k [] h = refl
    find-erase_other j k ((i, a) ∷ m) h =
        ground (arith, find-erase_other j k m, eq i j, eq i k, eq k j)

    pub erase_absent : (k : K) (m : List (K × ℕ)) → find same k m ≡ none → erase same k m ≡ m
    unfolding find erase
    erase_absent k [] h = refl
    erase_absent k ((j, a) ∷ m) h = ground (arith, erase_absent k m)

    pub length-erase :
        (k : K) (m : List (K × ℕ)) (a : ℕ)
        → OneEach m
        → find same k m ≡ some a
        → suc (length (erase same k m)) ≡ length m
    unfolding find erase
    length-erase k [] a o h = absurd (cc)
    length-erase k ((j, b) ∷ m) a (once, o) h = elim (Bool-cases (same j k)) [
      | inl e ↦
          let gone : find same k m ≡ none = rw ((eq j k).0 e) at once in
          ground (arith, erase_absent k m gone)
      | inr e ↦ ground (arith, length-erase k m a o)
    ]

    pub OneEach-erase : (k : K) (m : List (K × ℕ)) → OneEach m → OneEach (erase same k m)
    unfolding find erase
    OneEach-erase k [] o = tt
    OneEach-erase k ((j, a) ∷ m) (once, o) = elim (Bool-cases (same j k)) [
      | inl e ↦ rw e (OneEach-erase k m o)
      | inr e ↦ rw e (ground (arith, find-erase_other j k m, eq j k, eq k j), OneEach-erase k m o)
    ]
