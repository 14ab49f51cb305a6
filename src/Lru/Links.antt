-- ===== src/Lru/Links.antt =====
-- Chains of entries, linked in both directions.
use gomodfs.Base.{ℕ, ◌≡◌, ◌≢◌, arith, List, [], ◌∷◌, ◌++◌, true}
use gomodfs.Lru.Addresses.{mem, Distinct}

-- one heap's pointers: the maps `next` and `prev`
abbrev pub Ptrs : Type 0
Ptrs = ℕ → ℕ

abbrev pub Link : Ptrs → Ptrs → ℕ → ℕ → Type 0
Link n p a b = (n a ≡ b) × (p b ≡ a)

-- from `a` over the entries `xs` to `b`
abbrev pub Chain : Ptrs → Ptrs → ℕ → List ℕ → ℕ → Type 0
Chain n p a [] b = Link n p a b
Chain n p a (x ∷ xs) b = Link n p a x × Chain n p x xs b

module _ (n p : Ptrs) where
  pub last_mem : (a : ℕ) (xs : List ℕ) (b : ℕ) → Chain n p a xs b → mem (p b) (a ∷ xs) ≡ true
  unfolding mem
  last_mem a [] b (to, back) = ground arith
  last_mem a (x ∷ xs) b (l, c) = ground (arith, last_mem x xs b c)

  pub join :
      (a : ℕ) (xs : List ℕ) (e : ℕ) (ys : List ℕ) (b : ℕ)
      → Chain n p a xs e
      → Chain n p e ys b
      → Chain n p a (xs ++ (e ∷ ys)) b
  join a [] e ys b c d = (c, d)
  join a (x ∷ xs) e ys b (l, c) d = (l, join x xs e ys b c d)

  pub part :
      (a : ℕ) (xs : List ℕ) (e : ℕ) (ys : List ℕ) (b : ℕ)
      → Chain n p a (xs ++ (e ∷ ys)) b
      → Chain n p a xs e × Chain n p e ys b
  part a [] e ys b (l, c) = (l, c)
  part a (x ∷ xs) e ys b (l, c) = let (d, f) = part x xs e ys b c in ((l, d), f)

  module _ (n' p' : Ptrs) where
    -- a chain survives writes elsewhere
    pub frame :
        (a : ℕ) (xs : List ℕ) (b : ℕ)
        → Chain n p a xs b
        → ((x : ℕ) → mem x (a ∷ xs) ≡ true → n' x ≡ n x)
        → ((x : ℕ) → mem x xs ≡ true → p' x ≡ p x)
        → p' b ≡ p b
        → Chain n' p' a xs b
    unfolding mem
    frame a [] b (to, back) sn sp e = (ground (arith, sn a), ground arith)
    frame a (x ∷ xs) b ((to, back), c) sn sp e = (
      (ground (arith, sn a), ground (arith, sp x)),
      frame x xs b c (λ y h. ground (arith, sn y)) (λ y h. ground (arith, sp y)) e,
    )

    -- the end of a chain is moved to another entry
    pub redirect :
        (a : ℕ) (xs : List ℕ) (b r : ℕ)
        → Chain n p a xs b
        → Distinct (a ∷ xs)
        → ((x : ℕ) → mem x (a ∷ xs) ≡ true → x ≢ p b → n' x ≡ n x)
        → ((x : ℕ) → mem x xs ≡ true → p' x ≡ p x)
        → n' (p b) ≡ r
        → p' r ≡ p b
        → Chain n' p' a xs r
    unfolding mem
    redirect a [] b r (to, back) d sn sp en ep = (cc, cc)
    redirect a (x ∷ xs) b r ((to, back), c) (out, d) sn sp en ep = (
      (ground (arith, sn a, last_mem x xs b c), ground (arith, sp x)),
      redirect x xs b r c d (λ y h. ground (arith, sn y)) (λ y h. ground (arith, sp y)) en ep,
    )
