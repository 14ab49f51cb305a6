-- ===== src/Git/Pack/RoundTrip.antt =====
-- Reading the header of an object in a pack, by git's documentation of the format.
use gomodfs.Base.{
  ℕ, ◌+◌, ◌-◌, ◌*◌, ◌/◌, ◌%◌, ◌^◌, Bytes, [], ◌∷◌, Option, none, some, true, false, ltb,
}

-- the rest of a size: groups of seven bits, the lowest first, while the high bit is set
unfoldable pub read_size : Bytes → Option (ℕ × Bytes)
read_size [] = none
read_size (c ∷ s) = elim (ltb c 128) [
  | true ↦ some (c, s)
  | false ↦ elim (read_size s) [ none ↦ none | some (n, rest) ↦ some (c - 128 + n * 2 ^ 7, rest) ]
]

-- the header of an object: three bits of the type, four bits of the size, and the rest of the size
unfoldable pub read_header : Bytes → Option (ℕ × ℕ × Bytes)
unfolding read_size
read_header [] = none
read_header (c ∷ s) = elim (ltb c 128) [
  | true ↦ some (c / 2 ^ 4 % 2 ^ 3, c % 2 ^ 4, s)
  | false ↦ elim (read_size s) [
    | none ↦ none
    | some (n, rest) ↦ some (c / 2 ^ 4 % 2 ^ 3, c % 2 ^ 4 + n * 2 ^ 4, rest)
  ]
]
