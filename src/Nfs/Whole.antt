-- ===== src/Nfs/Whole.antt =====
-- A client of `OnNFSRead` of nfs.go that reads a file piece by piece.
use gomodfs.Base.{
  ℕ, zero, suc, ◌+◌, ◌-◌, ◌^◌, ◌≤◌, ◌<◌, ◌==◌, ◌≡◌, Bytes, Option, none, some, [], ◌∷◌, ◌++◌, true,
  false, Bool-cases, inl, inr, if◌then◌else◌, length, take, drop, length-take, length-drop, ltb,
  arith, refl, ap, ◌∙◌, sym, take_whole,
}
use Prim.Native.Nat.{min}
use gomodfs.Nfs.{read_at, min_of, max_read}

abbrev pub behind_piece : Bytes → Option Bytes → Option Bytes
behind_piece piece none = none
behind_piece piece (some rest) = some (piece ++ rest)

-- a client's loop: it reads `count` bytes at a time until a read tells that the end of the file is
-- reached, and only then has the contents; on fuel, `none` when it runs out
unfoldable pub read_all : ℕ → Bytes → ℕ → ℕ → Option Bytes
unfolding read_at
read_all zero contents count offset = none
read_all (suc fuel) contents count offset =
    let r = read_at contents offset count in
    let rest = read_all fuel contents count (offset + length r.data_read) in
    if r.eof then some r.data_read else behind_piece r.data_read rest

take-drop : (n : ℕ) (xs : Bytes) → take n xs ++ drop n xs ≡ xs
take-drop zero xs = refl
take-drop (suc n) [] = refl
take-drop (suc n) (x ∷ xs) = ap (◌∷◌ x) (take-drop n xs)

abbrev no_bytes : Bytes
no_bytes = []

drop-nil : (n : ℕ) → drop n no_bytes ≡ no_bytes
drop-nil zero = refl
drop-nil (suc n) = refl

drop-add : (m n : ℕ) (xs : Bytes) → drop n (drop m xs) ≡ drop (m + n) xs
drop-add zero n xs = ap (λ (k : ℕ). drop k xs) (omega arith)
drop-add (suc m) n [] = drop-nil n ∙ sym (drop-nil (suc m + n))
drop-add (suc m) n (x ∷ xs) =
    drop-add m n xs
    ∙ ap (λ (k : ℕ). drop k (x ∷ xs)) {x = suc (m + n)} {y = suc m + n} (omega arith)

abbrev pub limit_of : ℕ → ℕ
limit_of count = min_of count max_read

min_of-le : (n m : ℕ) → m ≤ n → min_of n m ≡ m
min_of-le n m h = ground arith

-- a read inside the file gives the next bytes, as many as the limit allows.
read_at-piece :
    (contents : Bytes) (offset count : ℕ)
    → offset ≤ length contents
    → (read_at contents offset count).data_read ≡ take (limit_of count) (drop offset contents)
unfolding read_at
read_at-piece contents offset count h =
    rw (min_of-le (length contents) offset h)
      (elim (Bool-cases (ltb (limit_of count) (length (drop offset contents)))) [
        | inl lt ↦ rw lt refl
        | inr ge ↦
            rw ge (sym (take_whole (drop offset contents) {k = limit_of count} (ground arith)))
      ])

read_at-eof :
    (contents : Bytes) (offset count : ℕ)
    → offset ≤ length contents
    → length contents < 2 ^ 63
    → (read_at contents offset count).eof
      ≡ (offset + length (read_at contents offset count).data_read == length contents)
unfolding read_at
read_at-eof contents offset count h lt = ground arith

read_all-step :
    (fuel : ℕ) (contents : Bytes) (count offset : ℕ)
    → read_all (suc fuel) contents count offset ≡ (
        if (read_at contents offset count).eof
        then some (read_at contents offset count).data_read
        else behind_piece (read_at contents offset count).data_read (
            read_all fuel contents count
              (offset + length (read_at contents offset count).data_read)))
unfolding read_all
read_all-step fuel contents count offset = refl

length-piece :
    (contents : Bytes) (offset count : ℕ)
    → offset ≤ length contents
    → length (read_at contents offset count).data_read
      ≡ min (limit_of count) (length contents - offset)
length-piece contents offset count h =
    rw
      (
        read_at-piece contents offset count h,
        length-take (limit_of count) (drop offset contents),
        length-drop offset contents,
      )
      refl

take_more : (k n : ℕ) (xs : Bytes) → k ≡ min n (length xs) → take n xs ++ drop k xs ≡ xs
take_more k zero xs h = ap (λ (j : ℕ). drop j xs) {x = k} {y = 0} (omega arith)
take_more k (suc n) [] h = drop-nil k
take_more k (suc n) (x ∷ xs) h =
    ap (λ (j : ℕ). x ∷ take n xs ++ drop j (x ∷ xs)) {x = k} {y = suc (min n (length xs))}
      (omega arith)
    ∙ ap (◌∷◌ x) (take_more (min n (length xs)) n xs refl)

piece_more :
    (piece : Bytes) (k n : ℕ) (xs : Bytes)
    → piece ≡ take n xs
    → k ≡ min n (length xs)
    → piece ++ drop k xs ≡ xs
piece_more piece k n xs e h = rw e (take_more k n xs h)

-- a read of `p` bytes at `o`, of at most `n`, in a file of `l` bytes: it reaches the end or not
rest_fits : (o p l n : ℕ) → p ≡ min n (l - o) → (o + p == l) ≡ true → o ≤ l → l - o ≤ n
rest_fits o p l n h e le = ground arith

shorter :
    (o p l n fuel : ℕ)
    → p ≡ min n (l - o)
    → (o + p == l) ≡ false
    → 0 < n
    → o ≤ l
    → l - o < suc fuel
    → (o + p ≤ l) × (l - (o + p) < fuel)
shorter o p l n fuel h e pos le enough = (omega arith, ground arith)

read_all-rest :
    (fuel : ℕ) (contents : Bytes) (count offset : ℕ)
    → 0 < count
    → offset ≤ length contents
    → length contents < 2 ^ 63
    → length contents - offset < fuel
    → read_all fuel contents count offset ≡ some (drop offset contents)
read_all-rest zero contents count offset pos le lt enough = absurd (omega arith)
read_all-rest (suc fuel) contents count offset pos le lt enough =
    let p = length (read_at contents offset count).data_read in
    let len : p ≡ min (limit_of count) (length contents - offset) =
      length-piece contents offset count le in
    let limit : 0 < limit_of count = ground arith in
    elim (Bool-cases (offset + p == length contents)) [
      | inl e ↦
          rw
            (
              read_all-step fuel contents count offset,
              read_at-eof contents offset count le lt,
              e,
              read_at-piece contents offset count le,
            )
            (ap (λ (b : Bytes). some b)
              (take_whole (drop offset contents) {k = limit_of count} (
                rw (length-drop offset contents)
                  (rest_fits offset p (length contents) (limit_of count) len e le))))
      | inr more ↦
          let (le', enough') =
            shorter offset p (length contents) (limit_of count) fuel len more limit le enough in
          rw
            (
              read_all-step fuel contents count offset,
              read_at-eof contents offset count le lt,
              more,
              read_all-rest fuel contents count (offset + p) pos le' lt enough',
              sym (drop-add offset p contents),
            )
            (ap (λ (b : Bytes). some b)
              (piece_more (read_at contents offset count).data_read p (limit_of count)
                (drop offset contents) (read_at-piece contents offset count le)
                (rw (length-drop offset contents) len)))
    ]

-- A client that reads a file of less than 2 ^ 63 bytes from its start, with any count that is not
-- 0, is told by a read that the end is reached, after at most one more read than there are bytes,
-- and what the reads up to that one gave is then the whole contents.
pub read_all-whole :
    (contents : Bytes) (count : ℕ)
    → 0 < count
    → length contents < 2 ^ 63
    → read_all (suc (length contents)) contents count 0 ≡ some contents
read_all-whole contents count pos lt =
    read_all-rest (suc (length contents)) contents count 0 pos (omega arith) lt (omega arith)
