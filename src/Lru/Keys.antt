-- ===== src/Lru/Keys.antt =====
-- Lookups in the list of the entries of a cache of internal/lru/lru.go.
use gomodfs.Base.{
  ◌≡◌, inl, inr, refl, arith, List, [], ◌∷◌, none, some, Bool, true, false, Bool-cases,
  Option-cases, none-ne-some, sym, ap, ◌∙◌,
}
use gomodfs.Lru.Lookup.{IsEquality}
use gomodfs.Lru.Spec.{lookup_of, drop_key, touched, init}

module _ {K V : Type 0} (same : K → K → Bool) where
  -- every key has one entry
  abbrev pub Once : List (K × V) → Type 0
  Once [] = Unit
  Once ((k, v) ∷ l) = (lookup_of same k l ≡ none) × Once l

  pub drop_key_absent :
      (k : K) (l : List (K × V)) → lookup_of same k l ≡ none → drop_key same k l ≡ l
  unfolding lookup_of drop_key
  drop_key_absent k [] h = refl
  drop_key_absent k ((j, v) ∷ l) h = ground (arith, drop_key_absent k l)

  module _ (eq : IsEquality same) where
    pub lookup_of-drop_key_same :
        (k : K) (l : List (K × V)) → lookup_of same k (drop_key same k l) ≡ none
    unfolding lookup_of drop_key
    lookup_of-drop_key_same k [] = refl
    lookup_of-drop_key_same k ((j, v) ∷ l) = ground (arith, lookup_of-drop_key_same k l)

    pub lookup_of-drop_key :
        (k j : K) (l : List (K × V))
        → same j k ≡ false
        → lookup_of same k (drop_key same j l) ≡ lookup_of same k l
    unfolding lookup_of drop_key
    lookup_of-drop_key k j [] h = refl
    lookup_of-drop_key k j ((i, v) ∷ l) h =
        ground (arith, lookup_of-drop_key k j l, eq i j, eq i k, eq j k)

    pub lookup_of-dropped :
        (k j : K) (v : V) (l : List (K × V))
        → lookup_of same j (drop_key same k l) ≡ some v
        → lookup_of same j l ≡ some v
    lookup_of-dropped k j v l f = elim (Bool-cases (same k j)) [
      | inl hit ↦
          let gone = lookup_of-drop_key_same k l in
          absurd (none-ne-some (sym (rw ((eq k j).0 hit) at gone) ∙ rw ((eq k j).0 hit) at f))
      | inr differs ↦ sym (lookup_of-drop_key j k l differs) ∙ f
    ]

    Once-drop_key : (k : K) (l : List (K × V)) → Once l → Once (drop_key same k l)
    unfolding lookup_of drop_key
    Once-drop_key k [] o = tt
    Once-drop_key k ((j, v) ∷ l) (absent, o) = elim (Bool-cases (same j k)) [
      | inl is ↦ rw is (Once-drop_key k l o)
      | inr differs ↦
          rw differs (ground (arith, lookup_of-drop_key j k l, eq j k, eq k j), Once-drop_key k l o)
    ]

    -- an entry at the front in place of the one with its key
    pub Once-front : (k : K) (v : V) (l : List (K × V)) → Once l → Once ((k, v) ∷ drop_key same k l)
    Once-front k v l o = (lookup_of-drop_key_same k l, Once-drop_key k l o)

    pub lookup_of-here :
        (k j : K) (v : V) (l : List (K × V))
        → same k j ≡ true
        → lookup_of same j ((k, v) ∷ drop_key same k l) ≡ some v
    unfolding lookup_of
    lookup_of-here k j v l h = rw h refl

    pub lookup_of-front :
        (k j : K) (v : V) (l : List (K × V))
        → same k j ≡ false
        → lookup_of same j ((k, v) ∷ drop_key same k l) ≡ lookup_of same j l
    unfolding lookup_of
    lookup_of-front k j v l h = rw h (lookup_of-drop_key j k l h)

    pub lookup_of-touched :
        (k j : K) (l : List (K × V)) → lookup_of same k (touched same j l) ≡ lookup_of same k l
    unfolding touched
    lookup_of-touched k j l = elim (Option-cases (lookup_of same j l)) [
      | inl n ↦ rw (touched, n) refl
      | inr (v, e) ↦ elim (Bool-cases (same j k)) [
        | inr differs ↦ rw (touched, e) (lookup_of-front j k v l differs)
        | inl is ↦
            rw (touched, e)
              (lookup_of-here j k v l is
                ∙ sym e
                ∙ ap (λ (i : K). lookup_of same i l) ((eq j k).0 is))
      ]
    ]

    pub Once-touched : (k : K) (l : List (K × V)) → Once l → Once (touched same k l)
    unfolding touched
    Once-touched k l o = elim (Option-cases (lookup_of same k l)) [
      | inl n ↦ rw (touched, n) o
      | inr (v, e) ↦ rw (touched, e) (Once-front k v l o)
    ]

  pub lookup_of-init :
      (k : K) (v : V) (l : List (K × V))
      → lookup_of same k (init l) ≡ some v
      → lookup_of same k l ≡ some v
  unfolding lookup_of init
  lookup_of-init k v [] h = h
  lookup_of-init k v (e ∷ []) h = absurd (none-ne-some h)
  lookup_of-init k v ((j, u) ∷ d ∷ l) h = elim (Bool-cases (same j k)) [
    | inl is ↦ rw is (rw is at h)
    | inr differs ↦ rw differs (lookup_of-init k v (d ∷ l) (rw differs at h))
  ]

  lookup_of-init-none :
      (k : K) (l : List (K × V)) → lookup_of same k l ≡ none → lookup_of same k (init l) ≡ none
  lookup_of-init-none k l h = elim (Option-cases (lookup_of same k (init l))) [
    | inl n ↦ n
    | inr (v, e) ↦ absurd (none-ne-some (sym h ∙ lookup_of-init k v l e))
  ]

  pub Once-init : (l : List (K × V)) → Once l → Once (init l)
  unfolding init
  Once-init [] o = tt
  Once-init (e ∷ []) o = tt
  Once-init ((j, u) ∷ d ∷ l) (absent, o) =
      (lookup_of-init-none j (d ∷ l) absent, Once-init (d ∷ l) o)
