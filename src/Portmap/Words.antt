-- ===== src/Portmap/Words.antt =====
-- Big-endian words: reading back what `be32` writes, and the shape of what can be read.
use gomodfs.Base.{ℕ, ◌+◌, ◌^◌, ◌<◌, Bytes, [], ◌∷◌, ◌++◌, some, ◌≡◌, refl, ap, arith, All, length}
use gomodfs.Portmap.{be32, word, u32}
use gomodfs.Base.{Bool}

abbrev pub IsByte : ℕ → Type 0
IsByte c = c < 256

pub word-be32 : (n : ℕ) (rest : Bytes) → n < 2 ^ 32 → word (be32 n ++ rest) ≡ some (n, rest)
unfolding word be32
word-be32 n rest h = ap (λ v. some (v, rest)) (omega arith)

pub u32-be32 :
    (n : ℕ) (rest : Bytes) (bad : Bool)
    → n < 2 ^ 32
    → u32 (record { b = be32 n ++ rest; bad = bad }) ≡ (n, record { b = rest; bad = bad })
unfolding u32
u32-be32 n rest bad h = rw (word-be32 n rest h, u32)

pub length-be32 : (n : ℕ) → length (be32 n) ≡ 4
unfolding be32
length-be32 n = refl

pub word_inv :
    (s : Bytes) (v : ℕ) (rest : Bytes)
    → All IsByte s
    → word s ≡ some (v, rest)
    → (s ≡ be32 v ++ rest) × (v < 2 ^ 32) × All IsByte rest
unfolding word be32
word_inv [] v rest h e = cc
word_inv (a ∷ []) v rest h e = cc
word_inv (a ∷ b ∷ []) v rest h e = cc
word_inv (a ∷ b ∷ c ∷ []) v rest h e = cc
word_inv (a ∷ b ∷ c ∷ d ∷ s) v rest h e = ground arith

pub length-word :
    (s : Bytes) (v : ℕ) (rest : Bytes) → word s ≡ some (v, rest) → length s ≡ length rest + 4
unfolding word
length-word [] v rest e = cc
length-word (a ∷ []) v rest e = cc
length-word (a ∷ b ∷ []) v rest e = cc
length-word (a ∷ b ∷ c ∷ []) v rest e = cc
length-word (a ∷ b ∷ c ∷ d ∷ s) v rest e = ground arith
