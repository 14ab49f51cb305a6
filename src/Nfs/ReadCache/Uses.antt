-- ===== src/Nfs/ReadCache/Uses.antt =====
-- How many entries of the read cache of nfs.go have a blob.
use gomodfs.Base.{
  ℕ, ◌+◌, ◌≡◌, inl, inr, refl, arith, Bytes, List, [], ◌∷◌, none, some, Bool-cases, Option-cases,
  none-ne-some, if◌then◌else◌, beq, beq_iff, sym,
}
use gomodfs.Lru.Lookup.{IsEquality}
use gomodfs.Lru.Spec.{lookup_of, drop_key, touched, last, init}
use gomodfs.Lru.Keys.{Once, drop_key_absent}
use gomodfs.Nfs.ReadCache.{Entry}

pub beq-IsEquality : IsEquality beq
beq-IsEquality = beq_iff

module _ {A : Type 0} where
  unfoldable pub one_use : Bytes → Entry A → ℕ
  unfolding beq
  one_use b e = if beq e.blob_hash b then 1 else 0

  unfoldable pub uses : Bytes → List (Bytes × Entry A) → ℕ
  unfolding one_use
  uses b [] = 0
  uses b ((h, e) ∷ l) = one_use b e + uses b l

  pub uses-drop_key :
      (b h : Bytes) (e : Entry A) (l : List (Bytes × Entry A))
      → Once beq l
      → lookup_of beq h l ≡ some e
      → uses b l ≡ one_use b e + uses b (drop_key beq h l)
  unfolding uses lookup_of drop_key
  uses-drop_key b h e [] o f = absurd (none-ne-some f)
  uses-drop_key b h e ((k, d) ∷ l) (absent, o) f = elim (Bool-cases (beq k h)) [
    | inl is ↦
        let same : d ≡ e = (let g = rw is at f in cc) in
        let gone : lookup_of beq h l ≡ none = rw ((beq_iff k h).0 is) at absent in
        rw (is, drop_key_absent beq h l gone, same) refl
    | inr differs ↦
        let rest = uses-drop_key b h e l o (rw differs at f) in rw differs (omega (arith, rest))
  ]

  pub uses-init :
      (b h : Bytes) (e : Entry A) (l : List (Bytes × Entry A))
      → last l ≡ some (h, e)
      → uses b l ≡ one_use b e + uses b (init l)
  unfolding uses last init
  uses-init b h e [] f = absurd (none-ne-some f)
  uses-init b h e ((k, d) ∷ []) f = let same : d ≡ e = cc in rw same refl
  uses-init b h e ((k, d) ∷ c ∷ l) f = omega (arith, uses-init b h e (c ∷ l) f)

  pub uses-touched :
      (b h : Bytes) (l : List (Bytes × Entry A)) → Once beq l → uses b (touched beq h l) ≡ uses b l
  unfolding uses touched
  uses-touched b h l o = elim (Option-cases (lookup_of beq h l)) [
    | inl n ↦ rw (touched, n) refl
    | inr (e, f) ↦ rw (touched, f) (sym (uses-drop_key b h e l o f))
  ]
