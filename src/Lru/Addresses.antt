-- ===== src/Lru/Addresses.antt =====
-- Lists of distinct addresses.
use gomodfs.Base.{
  ℕ, ◌≡◌, inl, inr, refl, arith, List, [], ◌∷◌, ◌++◌, Bool, true, false, ◌||◌, ◌==◌, Bool-cases,
}

unfoldable pub mem : ℕ → List ℕ → Bool
mem a [] = false
mem a (x ∷ xs) = (a == x) || mem a xs

abbrev pub Distinct : List ℕ → Type 0
Distinct [] = Unit
Distinct (x ∷ xs) = (mem x xs ≡ false) × Distinct xs

pub mem-append : (a : ℕ) (xs ys : List ℕ) → mem a (xs ++ ys) ≡ (mem a xs || mem a ys)
unfolding mem
mem-append a [] ys = refl
mem-append a (x ∷ xs) ys = ground (arith, mem-append a xs ys)

-- two lists whose elements together are distinct
pub record Apart (xs ys : List ℕ) : Type 0 where
  pub left : Distinct xs
  pub right : Distinct ys
  pub apart : (a : ℕ) → mem a xs ≡ true → mem a ys ≡ false

pub Apart-append : (xs ys : List ℕ) → Distinct (xs ++ ys) → Apart xs ys
unfolding mem
Apart-append [] ys d = record { left = tt; right = d; apart = λ a h. cc }
Apart-append (x ∷ xs) ys (out, d) =
    let rest = Apart-append xs ys d in
    record {
      left = (ground (arith, mem-append x xs ys), rest.left);
      right = rest.right;
      apart = λ a h. ground (arith, rest.apart a, mem-append x xs ys);
    }

pub Distinct-append : (xs ys : List ℕ) → Apart xs ys → Distinct (xs ++ ys)
unfolding mem
Distinct-append [] ys d = d.right
Distinct-append (x ∷ xs) ys d = (
  ground (arith, mem-append x xs ys, d.apart x, d.left.0),
  Distinct-append xs ys
      (record { left = d.left.1; right = d.right; apart = λ a h. ground (arith, d.apart a) }),
)

-- an element splits its list
pub split_at :
    (a : ℕ) (xs : List ℕ) → mem a xs ≡ true → (before after : List ℕ) × (xs ≡ before ++ (a ∷ after))
unfolding mem
split_at a [] h = absurd (cc)
split_at a (x ∷ xs) h = elim (Bool-cases (a == x)) [
  | inl e ↦ ([], xs, ground arith)
  | inr e ↦ let (before, after, s) = split_at a xs (ground arith) in (x ∷ before, after, cc)
]
