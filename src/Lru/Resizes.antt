-- ===== src/Lru/Resizes.antt =====
-- The public fields of an empty cache of internal/lru/lru.go are set, and lookups in a list that is
-- limited.
use gomodfs.Base.{
  ℕ, ◌-◌, ◌==◌, ◌≡◌, inl, inr, refl, List, [], ◌∷◌, Option, some, Bool, Bool-cases, none-ne-some,
  leb,
}
use gomodfs.Lru.{Cache, size_with}
use gomodfs.Lru.Represents.{Represents}
use gomodfs.Lru.Spec.{lookup_of, keep, limited}
use gomodfs.Lru.Shows.{entries, Shows}

module _ {K V : Type 0} (same : K → K → Bool) where
  pub resized :
      (f g : Option (K → V → ℕ)) (m m' n : ℕ) (c : Cache K V)
      → n ≡ m'
      → Shows same f m c []
      → Shows same g m' (record c { size_of_entry = g; max_size = n }) []
  resized f g m m' n c is s = at_places s.places s.represents s.shown
    where
      at_places :
          (ps : List ℕ)
          → Represents same c ps
          → entries c.heap ps ≡ []
          → Shows same g m' (record c { size_of_entry = g; max_size = n }) []
      at_places (a ∷ ps) r e = absurd (cc)
      at_places [] r e = record {
        places = [];
        represents = record {
          ring = r.ring;
          distinct = r.distinct;
          below = r.below;
          sound = r.sound;
          complete = r.complete;
          once = r.once;
          count = r.count;
          sizes = r.sizes;
        };
        shown = refl;
        limit = is;
        sizes = refl;
      }

  lookup_of-keep :
      (f : Option (K → V → ℕ)) (room : ℕ) (k : K) (v : V) (l : List (K × V))
      → lookup_of same k (keep f room l) ≡ some v
      → lookup_of same k l ≡ some v
  unfolding lookup_of keep
  lookup_of-keep f room k v [] h = h
  lookup_of-keep f room k v ((j, u) ∷ l) h = elim (Bool-cases (leb (size_with f j u) room)) [
    | inr large ↦ absurd (none-ne-some (rw large at h))
    | inl fits ↦ elim (Bool-cases (same j k)) [
      | inl is ↦ rw is (rw (fits, lookup_of, is) at h)
      | inr differs ↦
          rw differs
            (lookup_of-keep f (room - size_with f j u) k v l (rw (fits, lookup_of, differs) at h))
    ]
  ]

  pub lookup_of-limited :
      (f : Option (K → V → ℕ)) (max : ℕ) (k : K) (v : V) (l : List (K × V))
      → lookup_of same k (limited f max l) ≡ some v
      → lookup_of same k l ≡ some v
  unfolding limited
  lookup_of-limited f max k v l h = elim (Bool-cases (max == 0)) [
    | inl unlimited ↦ rw unlimited at h
    | inr bounded ↦ lookup_of-keep f max k v l (rw bounded at h)
  ]
